-- ===== src/Command/Execute/Names.antt =====
-- The case-insensitive lookup of a command, against upper-casing its name.
use tellstone.Prelude.{◌≡◌, ◌↔◌, some, Bytes, codes, arith, map, upper}
use tellstone.Command.Ttl.Fold.{AreBytes, fold_iff}
use tellstone.Command.Execute.{Name, name_of, lookup_command}

-- Lookup finds a command exactly if the token is its name up to the case of ASCII letters.
lookup_command-upper :
    (text : Bytes) (cmd : Name)
    → AreBytes text
    → (lookup_command text ≡ some cmd) ↔ (map upper text ≡ name_of cmd)
unfolding lookup_command
lookup_command-upper text cmd h =
    let g = fold_iff text (codes "GET") h (omega arith) in
    let s = fold_iff text (codes "SET") h (omega arith) in
    let d = fold_iff text (codes "DEL") h (omega arith) in
    (λ e. ground (arith, g, s, d), λ e. ground (arith, g, s, d))
