-- ===== src/AppConfig/Redact/Hidden.antt =====
-- What of a URL can be read in its redacted form.
use subconverter_ng.AppConfig.Redact.{
  mask, ends_authority, span, redact_authority, redact_userinfo, mask_part, mask_query,
  opaque_scheme, with_query, redact_parts, redact_with, redact_url, host_start, redact_sub_parts,
  redact_sub_url,
}
use subconverter_ng.Common.{
  ℕ, ◌≡◌, ◌≢◌, refl, sym, ap, ◌∙◌, Bool, true, false, none, some, List, [], ◌∷◌, ◌++◌, append-nil,
  append_assoc, map, Text, codes, same, same_ne, All, arith,
}
use subconverter_ng.Strings.Laws.{
  Lacks, cut_at-All, cut_at-none, cut-Lacks, cut_last-Lacks, cut_text-Lacks, split-join,
  has_prefix-append, Lacks-append,
}
use subconverter_ng.Strings.{
  to_lower, cut_at, trim_space, contains, has_prefix, join, cut, cut_text, split,
}

-- A text that is empty or begins with a character of a kind.
abbrev pub StartsWith : (ℕ → Bool) → Text → Type 0
StartsWith p [] = Unit
StartsWith p (c ∷ s) = p c ≡ true

span-append :
    (p : ℕ → Bool) (a rest : Text)
    → All (λ c. p c ≡ false) a
    → StartsWith p rest
    → span p (a ++ rest) ≡ (a, rest)
unfolding span
span-append p a [] h s = rw append-nil (rw (cut_at-none p a h, span))
span-append p a (c ∷ rest) h s = rw (cut_at-All p a c rest h s, span)

All-mono : (P Q : ℕ → Type 0) (s : Text) → ((c : ℕ) → P c → Q c) → All P s → All Q s
All-mono P Q [] f h = tt
All-mono P Q (c ∷ s) f h = (f c h.0, All-mono P Q s f h.1)

All-append : (P : ℕ → Type 0) (a b : Text) → All P a → All P b → All P (a ++ b)
All-append P [] b h k = k
All-append P (c ∷ a) b h k = (h.0, All-append P a b h.1 k)

-- A user and a host as they stand in a URL.
abbrev pub IsUser : Text → Type 0
IsUser u = All (λ c. ends_authority c ≡ false) u

abbrev pub IsHost : Text → Type 0
IsHost h = All (λ c. ends_authority c ≡ false) h × Lacks b'@' h

redact_userinfo_parts :
    (base scheme tail auth rest a : Text)
    → cut_text (codes "://") base ≡ some (scheme, tail)
    → span ends_authority tail ≡ (auth, rest)
    → redact_authority auth ≡ some a
    → redact_userinfo base ≡ scheme ++ (codes "://" ++ (a ++ rest))
unfolding redact_userinfo
redact_userinfo_parts base scheme tail auth rest a e f g =
    rw (e, redact_userinfo, ap (λ p. p.0) f, g, ap (λ p. p.1) f)

redact_authority-Lacks :
    (user host : Text)
    → Lacks b'@' host
    → redact_authority (user ++ (b'@' ∷ host)) ≡ some (codes "***@" ++ host)
unfolding redact_authority
redact_authority-Lacks user host h = rw (cut_last-Lacks b'@' user host h, redact_authority)

-- Whatever the user and password are, nothing of them is in the redacted text.
pub redact_userinfo-hides :
    (scheme user host rest : Text)
    → Lacks b':' scheme
    → IsUser user
    → IsHost host
    → StartsWith ends_authority rest
    → redact_userinfo (scheme ++ (codes "://" ++ (user ++ (b'@' ∷ (host ++ rest)))))
      ≡ scheme ++ (codes "://" ++ (codes "***@" ++ (host ++ rest)))
redact_userinfo-hides scheme user host rest s u h r =
    redact_userinfo_parts _ scheme (user ++ (b'@' ∷ (host ++ rest))) (user ++ (b'@' ∷ host)) rest
      (codes "***@" ++ host) (cut_text-Lacks b':' (codes "//") scheme _ s) authority
      (redact_authority-Lacks user host h.1)
  where
    whole : All (λ c. ends_authority c ≡ false) (user ++ (b'@' ∷ host))
    whole = All-append (λ c. ends_authority c ≡ false) user (b'@' ∷ host) u (refl, h.0)

    authority :
        span ends_authority (user ++ (b'@' ∷ (host ++ rest))) ≡ (user ++ (b'@' ∷ host), rest)
    authority =
        ap (span ends_authority) (sym (append_assoc user (b'@' ∷ host) rest))
        ∙ span-append ends_authority (user ++ (b'@' ∷ host)) rest whole r

-- A query of keys and values, as it stands in a URL.
abbrev pub pairs : List (Text × Text) → List Text
pairs [] = []
pairs ((k, v) ∷ kvs) = (k ++ (b'=' ∷ v)) ∷ pairs kvs

abbrev pub masked_pairs : List (Text × Text) → List Text
masked_pairs [] = []
masked_pairs ((k, v) ∷ kvs) = (k ++ (b'=' ∷ mask)) ∷ masked_pairs kvs

-- The keys hold neither of the characters that separate, the values none that ends them.
abbrev pub ArePairs : List (Text × Text) → Type 0
ArePairs [] = Unit
ArePairs ((k, v) ∷ kvs) = Lacks b'=' k × Lacks b'&' k × Lacks b'&' v × ArePairs kvs

pairs-Lacks : (kvs : List (Text × Text)) → ArePairs kvs → All (Lacks b'&') (pairs kvs)
pairs-Lacks [] h = tt
pairs-Lacks ((k, v) ∷ kvs) h = (Lacks-append b'&' k (b'=' ∷ v) h.1 (refl, h.2), pairs-Lacks kvs h.3)

mask_part-Lacks : (k v : Text) → Lacks b'=' k → mask_part (k ++ (b'=' ∷ v)) ≡ k ++ (b'=' ∷ mask)
unfolding mask_part
mask_part-Lacks k v h = rw (cut-Lacks b'=' k v h, mask_part)

map-mask_part :
    (kvs : List (Text × Text)) → ArePairs kvs → map mask_part (pairs kvs) ≡ masked_pairs kvs
map-mask_part [] h = refl
map-mask_part ((k, v) ∷ kvs) h = rw (mask_part-Lacks k v h.0, map-mask_part kvs h.3)

append-ne-nil : (a : Text) (c : ℕ) (b : Text) → a ++ (c ∷ b) ≢ []
append-ne-nil [] c b e = cc
append-ne-nil (d ∷ a) c b e = cc

join-pairs-ne-nil :
    (k v : Text) (rest : List (Text × Text)) → join (codes "&") (pairs ((k, v) ∷ rest)) ≢ []
unfolding join
join-pairs-ne-nil k v [] e = append-ne-nil k b'=' v e
join-pairs-ne-nil k v ((j, w) ∷ rest) e =
    append-ne-nil k b'=' (v ++ (codes "&" ++ join (codes "&") (pairs ((j, w) ∷ rest))))
      (sym (append_assoc k (b'=' ∷ v) _) ∙ e)

-- A query keeps its keys in their order, and nothing of its values.
pub mask_query-hides :
    (k v : Text) (kvs : List (Text × Text))
    → ArePairs ((k, v) ∷ kvs)
    → mask_query (join (codes "&") (pairs ((k, v) ∷ kvs)))
      ≡ join (codes "&") (masked_pairs ((k, v) ∷ kvs))
mask_query-hides k v kvs h =
    whole (join (codes "&") (pairs ((k, v) ∷ kvs))) (join-pairs-ne-nil k v kvs)
    ∙ ap (λ ps. join (codes "&") (map mask_part ps))
        (split-join b'&' (k ++ (b'=' ∷ v)) (pairs kvs) (pairs-Lacks ((k, v) ∷ kvs) h))
    ∙ ap (join (codes "&")) (map-mask_part ((k, v) ∷ kvs) h)
  where
    whole : (q : Text) → q ≢ [] → mask_query q ≡ join (codes "&") (map mask_part (split b'&' q))
    whole [] n = absurd (n refl)
    whole (c ∷ q) n = unfold mask_query in refl

contains-append : (a pat b : Text) → contains (a ++ (pat ++ b)) pat ≡ true
unfolding contains
contains-append [] [] [] = unfold has_prefix in refl
contains-append [] [] (c ∷ b) = unfold has_prefix in refl
contains-append [] (d ∷ pat) b = rw (has_prefix-append (d ∷ pat) b)
contains-append (c ∷ a) pat b = rw (contains-append a pat b) (ground arith)

Lacks-IsUser : (u : Text) → IsUser u → Lacks b'?' u
Lacks-IsUser [] h = tt
Lacks-IsUser (c ∷ u) h = (ground (arith, h.0), Lacks-IsUser u h.1)

-- A text that no trimming changes, and that is of no protocol whose whole text is a secret.
abbrev pub IsStructured : Text → Type 0
IsStructured raw = (trim_space raw ≡ raw) × (opaque_scheme raw ≡ none)

redact_with_structured {ℓ} :
    {A : Type ℓ} (done structured : Text → A) (raw : Text)
    → same raw [] ≡ false
    → opaque_scheme raw ≡ none
    → contains raw (codes "://") ≡ true
    → redact_with done structured raw ≡ structured raw
unfolding redact_with
redact_with_structured done structured raw n o c = rw (n, o, redact_with, c)

redact_parts_lem :
    (raw base query : Text)
    → cut b'?' raw ≡ some (base, query)
    → redact_parts raw ≡ with_query (redact_userinfo base) query
unfolding redact_parts
redact_parts_lem raw base query e = rw (e, redact_parts)

module _ (scheme user host path : Text) where
  -- The URL up to its query.
  abbrev pub base_url : Text
  base_url = scheme ++ (codes "://" ++ (user ++ (b'@' ∷ (host ++ path))))

  abbrev pub hidden_base_url : Text
  hidden_base_url = scheme ++ (codes "://" ++ (codes "***@" ++ (host ++ path)))

  pub record IsBase : Type 0 where
    pub scheme_plain : Lacks b':' scheme × Lacks b'?' scheme
    pub user_plain : IsUser user
    pub host_plain : IsHost host
    pub path_starts : StartsWith ends_authority path
    pub path_plain : Lacks b'?' path

  base_url-Lacks : IsBase → Lacks b'?' base_url
  base_url-Lacks b = Lacks-append b'?' scheme _ b.scheme_plain.1 (
    refl,
    (
      refl,
      (
        refl,
        Lacks-append b'?' user (b'@' ∷ (host ++ path)) (Lacks-IsUser user b.user_plain)
            (refl, Lacks-append b'?' host path (Lacks-IsUser host b.host_plain.0) b.path_plain),
      ),
    ),
  )

  -- A URL with a user and a query is logged with its scheme, host, path and keys, and nothing of
  -- the user, the password or a value: the redacted text does not depend on them.
  pub redact_url-hides :
      (k v : Text) (kvs : List (Text × Text))
      → IsBase
      → ArePairs ((k, v) ∷ kvs)
      → IsStructured (base_url ++ (b'?' ∷ join (codes "&") (pairs ((k, v) ∷ kvs))))
      → redact_url (base_url ++ (b'?' ∷ join (codes "&") (pairs ((k, v) ∷ kvs))))
        ≡ hidden_base_url ++ (b'?' ∷ join (codes "&") (masked_pairs ((k, v) ∷ kvs)))
  unfolding redact_url with_query
  redact_url-hides k v kvs b ps plain =
      ap (redact_with (λ t. t) redact_parts) plain.0
      ∙ redact_with_structured (λ t. t) redact_parts raw (same_ne filled) plain.1 found
      ∙ redact_parts_lem raw base_url query (cut-Lacks b'?' base_url query (base_url-Lacks b))
      ∙ rw (
        redact_userinfo-hides scheme user host path b.scheme_plain.0 b.user_plain b.host_plain
            b.path_starts,
        same_ne (join-pairs-ne-nil k v kvs),
        mask_query-hides k v kvs ps,
      )
    where
      query : Text
      query = join (codes "&") (pairs ((k, v) ∷ kvs))

      raw : Text
      raw = base_url ++ (b'?' ∷ query)

      filled : raw ≢ []
      filled = append-ne-nil base_url b'?' query

      found : contains raw (codes "://") ≡ true
      found =
          ap (λ s. contains s (codes "://")) (append_assoc scheme _ (b'?' ∷ query))
          ∙ contains-append scheme (codes "://") _

-- A text that begins with `?` and has a `://` behind it makes `RedactSubURL` panic: it slices the
-- empty text before the `?` from its second byte.
pub redact_sub_url_panics :
    (rest : Text)
    → trim_space (b'?' ∷ rest) ≡ b'?' ∷ rest
    → contains (b'?' ∷ rest) (codes "://") ≡ true
    → redact_sub_url (b'?' ∷ rest) ≡ none
unfolding redact_sub_url redact_sub_parts
redact_sub_url_panics rest t c =
    ap (redact_with some redact_sub_parts) t
    ∙ redact_with_structured some redact_sub_parts (b'?' ∷ rest) (unfold same in refl)
        (unfold opaque_scheme to_lower has_prefix in refl) c
    ∙ (unfold span redact_userinfo host_start cut_at cut_text has_prefix in refl)
