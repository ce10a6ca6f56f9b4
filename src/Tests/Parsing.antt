-- ===== src/Tests/Parsing.antt =====
-- Runs of the parser of subscriptions.
use subconverter_ng.Common.{Option, none, some, List, [], ◌∷◌, Text, codes, pos}
use subconverter_ng.Node.{Node, new_node}
use subconverter_ng.Parser.Lines.{parse_lines-Accounts, Accounts, content_lines}
use subconverter_ng.Parser.{Protocol, trojan, parse_lines}

-- A parser that reads the links of one protocol.
abbrev link : Protocol → Text → Option Node
link trojan s = some (new_node (codes "trojan") s (codes "a.org") (pos 443))
link _ s = none

abbrev line : Text
line = codes "Trojan://pw@a.org:443"

abbrev lines : List Text
lines = codes "# a list" ∷ line ∷ codes "" ∷ codes "ss://x" ∷ codes "expired" ∷ []

parse_lines-Accounts_example :
    Accounts link
      (content_lines lines)
      (parse_lines link lines).nodes
      (parse_lines link lines).skipped
parse_lines-Accounts_example = parse_lines-Accounts link lines
