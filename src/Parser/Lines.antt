-- ===== src/Parser/Lines.antt =====
-- What the lines of a subscription give.
use subconverter_ng.Common.{
  ◌≡◌, refl, subst⁻¹, ◌⊎◌, inl, inr, Bool, true, false, ◌||◌, not, Option, none, some, List, [],
  ◌∷◌, map, Text, codes, same, keep_if, arith, Bool-cases, Option-cases,
}
use subconverter_ng.Node.{Node}
use subconverter_ng.Parser.{Protocol, Parsed, trimmed_line, dispatch, parse_lines}
use subconverter_ng.Strings.{has_prefix}

-- The lines that are neither blank nor a comment, as they are read.
abbrev pub is_content : Text → Bool
is_content line = not (same line [] || has_prefix line (codes "#"))

abbrev pub content_lines : List Text → List Text
content_lines raws = keep_if is_content (map trimmed_line raws)

module _ (link : Protocol → Text → Option Node) where
  -- Each line stands for a node or is skipped, in the order of the lines.
  abbrev pub Accounts : List Text → List Node → List Text → Type 0
  Accounts [] nodes skipped = (nodes ≡ []) × (skipped ≡ [])
  Accounts (l ∷ ls) nodes skipped =
      ((n : Node) × (rest : List Node) × (dispatch link l ≡ some n)
        × (nodes ≡ n ∷ rest)
        × Accounts ls rest skipped)
      ⊎ ((rest : List Text) × (dispatch link l ≡ none)
          × (skipped ≡ l ∷ rest)
          × Accounts ls nodes rest)

  parse_lines_blank :
      (raw : Text) (raws : List Text)
      → is_content (trimmed_line raw) ≡ false
      → parse_lines link (raw ∷ raws) ≡ parse_lines link raws
  unfolding parse_lines
  parse_lines_blank raw raws h = ground arith

  parse_lines_node :
      (raw : Text) (raws : List Text) (n : Node)
      → is_content (trimmed_line raw) ≡ true
      → dispatch link (trimmed_line raw) ≡ some n
      → parse_lines link (raw ∷ raws)
        ≡ record (parse_lines link raws) { nodes = n ∷ (parse_lines link raws).nodes }
  unfolding parse_lines
  parse_lines_node raw raws n h e = ground (arith, e)

  parse_lines_skip :
      (raw : Text) (raws : List Text)
      → is_content (trimmed_line raw) ≡ true
      → dispatch link (trimmed_line raw) ≡ none
      → parse_lines link (raw ∷ raws) ≡ record (parse_lines link raws) {
        skipped = trimmed_line raw ∷ (parse_lines link raws).skipped;
      }
  unfolding parse_lines
  parse_lines_skip raw raws h e = ground (arith, e)

  -- The subject of the next proof.
  abbrev IsRead : List Text → Parsed → Type 0
  IsRead raws p = Accounts (content_lines raws) p.nodes p.skipped

  -- Every line that is neither blank nor a comment gives the node of its link or is reported as
  -- skipped, in the order of the lines, and no other node or report is made.
  pub parse_lines-Accounts :
      (raws : List Text)
      → Accounts (content_lines raws) (parse_lines link raws).nodes (parse_lines link raws).skipped
  unfolding parse_lines
  parse_lines-Accounts [] = (refl, refl)
  parse_lines-Accounts (raw ∷ raws) = elim (Bool-cases (is_content (trimmed_line raw))) [
    | inr f ↦
        subst⁻¹ (IsRead (raw ∷ raws)) (parse_lines_blank raw raws f)
          (rw f (parse_lines-Accounts raws))
    | inl t ↦ elim (Option-cases (dispatch link (trimmed_line raw))) [
      | inr (n, e) ↦
          subst⁻¹ (IsRead (raw ∷ raws)) (parse_lines_node raw raws n t e)
            (rw t (inl (n, (parse_lines link raws).nodes, e, refl, parse_lines-Accounts raws)))
      | inl e ↦
          subst⁻¹ (IsRead (raw ∷ raws)) (parse_lines_skip raw raws t e)
            (rw t (inr ((parse_lines link raws).skipped, e, refl, parse_lines-Accounts raws)))
    ]
  ]
