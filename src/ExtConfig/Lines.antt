-- ===== src/ExtConfig/Lines.antt =====
-- How `Parse` reads a file: a line at a time, over what the lines before it gave.
use subconverter_ng.Common.{◌≡◌, refl, ap, ◌∙◌, List, [], ◌∷◌, ◌++◌, map, Text, ◌==◌}
use subconverter_ng.Emoji.{Compile}
use subconverter_ng.ExtConfig.{Config, default_config, parse_line, parse_lines, parse_config}
use subconverter_ng.Strings.Laws.{split-append, trim_right-concat}
use subconverter_ng.Strings.{split}

parse_lines-append :
    (compile : Compile) (xs ys : List Text) (cfg : Config)
    → parse_lines compile (xs ++ ys) cfg ≡ parse_lines compile ys (parse_lines compile xs cfg)
unfolding parse_lines
parse_lines-append compile [] ys cfg = refl
parse_lines-append compile (x ∷ xs) ys cfg =
    parse_lines-append compile xs ys (parse_line compile x cfg)

-- Reading two texts joined by a line break reads the second over what the first gave.
pub parse_config-append :
    (compile : Compile) (a b : Text)
    → parse_config compile (a ++ (b'\n' ∷ b))
      ≡ parse_lines compile (split b'\n' b) (parse_config compile a)
unfolding parse_config
parse_config-append compile a b =
    rw (split-append b'\n' a b)
      (parse_lines-append compile (split b'\n' a) (split b'\n' b) default_config)

parse_line-crlf :
    (compile : Compile) (l : Text) (cfg : Config)
    → parse_line compile (l ++ (b'\r' ∷ [])) cfg ≡ parse_line compile l cfg
unfolding parse_line
parse_line-crlf compile l cfg = rw (trim_right-concat (λ c. c == b'\r') l b'\r' refl)

-- Lines that end in a carriage return too are read like lines that do not.
pub parse_lines-crlf :
    (compile : Compile) (ls : List Text) (cfg : Config)
    → parse_lines compile (map (λ l. l ++ (b'\r' ∷ [])) ls) cfg ≡ parse_lines compile ls cfg
unfolding parse_lines
parse_lines-crlf compile [] cfg = refl
parse_lines-crlf compile (l ∷ ls) cfg =
    ap (parse_lines compile (map (λ l. l ++ (b'\r' ∷ [])) ls)) (parse_line-crlf compile l cfg)
    ∙ parse_lines-crlf compile ls (parse_line compile l cfg)
