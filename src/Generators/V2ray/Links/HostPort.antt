-- ===== src/Generators/V2ray/Links/HostPort.antt =====
-- The host and the port of a link, and base64 in it, are read back as they were written.
use subconverter_ng.Common.{
  ℕ, ◌<◌, ◌≡◌, ◌≢◌, refl, ◌⊎◌, inl, inr, false, Option, none, some, List, [], ◌∷◌, ◌++◌, Text,
  codes, All, ◌^◌, ◌≤◌, pos, arith,
}
use subconverter_ng.Parser.Util.{
  first_decoding, b64decode, atoi_port, split_last_colon, split_host_port,
}
use subconverter_ng.Parser.{Encoding, std, raw_std, url, raw_url}
use subconverter_ng.Strings.Decimal.{AreDigits, itoa, itoa_nat, itoa_nat-AreDigits, atoi-itoa_nat}
use subconverter_ng.Strings.Laws.{AreDigits-Lacks, cut_last-Lacks}
use subconverter_ng.Strings.{is_space, trim_space, trim_func, trim_left, trim_right, has_prefix}

-- A text with no white space.
abbrev pub Unspaced : Text → Type 0
Unspaced s = All (λ c. is_space c ≡ false) s

trim_right-Unspaced : (s : Text) → Unspaced s → trim_right is_space s ≡ s
unfolding trim_right
trim_right-Unspaced [] h = refl
trim_right-Unspaced (c ∷ s) h = rw (h.0, trim_right-Unspaced s h.1) refl

pub trim_space-Unspaced : (s : Text) → Unspaced s → trim_space s ≡ s
unfolding trim_space trim_func trim_left
trim_space-Unspaced [] h = unfold trim_right in refl
trim_space-Unspaced (c ∷ s) h = rw h.0 (trim_right-Unspaced (c ∷ s) h)

Unspaced-append : (s t : Text) → Unspaced s → Unspaced t → Unspaced (s ++ t)
Unspaced-append [] t h k = k
Unspaced-append (c ∷ s) t h k = (h.0, Unspaced-append s t h.1 k)

AreDigits-Unspaced : (s : Text) → AreDigits s → Unspaced s
AreDigits-Unspaced [] d = tt
AreDigits-Unspaced (c ∷ s) d = (digit c d.0 d.1, AreDigits-Unspaced s d.2)
  where
    digit : (c : ℕ) → b'0' ≤ c → c ≤ b'9' → is_space c ≡ false
    digit c l u = unfold is_space in ground arith

atoi_port-itoa_nat : (n : ℕ) → n < 2 ^ 32 → atoi_port (itoa_nat n) ≡ pos n
unfolding atoi_port
atoi_port-itoa_nat n h =
    rw
      (
        trim_space-Unspaced (itoa_nat n) (AreDigits-Unspaced (itoa_nat n) (itoa_nat-AreDigits n)),
        atoi_port,
      )
      (atoi-itoa_nat n h)

-- A host that stands in a link as it is: it is not empty, does not begin with a bracket, and has no
-- space.
pub record IsHost (host : Text) : Type 0 where
  pub named : host ≢ []
  pub bare : has_prefix host (codes "[") ≡ false
  pub unspaced : Unspaced host

has_prefix-bracket :
    (host rest : Text)
    → host ≢ []
    → has_prefix host (codes "[") ≡ false
    → has_prefix (host ++ rest) (codes "[") ≡ false
unfolding has_prefix
has_prefix-bracket [] rest n h = absurd (n refl)
has_prefix-bracket (c ∷ host) rest n h = h

-- The host and the port are read back from the text they are joined into, an IPv6 address with its
-- colons as any other host.
pub split_host_port-itoa :
    (host : Text) (port : ℕ)
    → IsHost host
    → port < 2 ^ 32
    → split_host_port (host ++ (b':' ∷ itoa (pos port))) ≡ (host, pos port)
unfolding split_host_port split_last_colon itoa
split_host_port-itoa host port h small =
    rw
      (
        trim_space-Unspaced (host ++ (b':' ∷ itoa_nat port)) (
            Unspaced-append host (b':' ∷ itoa_nat port) h.unspaced (
              unfold is_space in refl,
              AreDigits-Unspaced (itoa_nat port) (itoa_nat-AreDigits port),
            )),
        has_prefix-bracket host (b':' ∷ itoa_nat port) h.named h.bare,
        cut_last-Lacks b':' host (itoa_nat port)
            (AreDigits-Lacks b':' (itoa_nat port) refl (itoa_nat-AreDigits port)),
        split_last_colon,
        atoi_port-itoa_nat port small,
      )
      refl

-- If each decoder either fails or gives the text, and one of them gives it, then the four tried in
-- turn give it.
pub b64decode-agree :
    (decode : Encoding → Text → Option Text) (s t : Text)
    → Unspaced s
    → ((e : Encoding) → (decode e s ≡ none) ⊎ (decode e s ≡ some t))
    → decode raw_url s ≡ some t
    → b64decode decode s ≡ some t
unfolding b64decode first_decoding
b64decode-agree decode s t plain agree h = rw (trim_space-Unspaced s plain) (
    step std (raw_std ∷ url ∷ raw_url ∷ [])
      (step raw_std (url ∷ raw_url ∷ []) (step url (raw_url ∷ []) last)))
  where
    last : first_decoding decode (raw_url ∷ []) s ≡ some t
    last = rw (h, first_decoding) refl

    step :
        (e : Encoding) (es : List Encoding)
        → first_decoding decode es s ≡ some t
        → first_decoding decode (e ∷ es) s ≡ some t
    step e es k = elim (agree e) [
      | inl z ↦ rw (z, first_decoding) k
      | inr z ↦ rw (z, first_decoding) refl
    ]
