-- ===== src/Client/Sanitize.antt =====
-- src/Client.cpp: `stripNul`, `splitOnCr` and the loop of `Client::extractMessages`.
pub mod Clean
use ft_irc.Prelude.{
  ℕ, zero, suc, Bytes, List, [], ◌∷◌, ◌++◌, Option, none, some, length, take, drop, ltb, ◌==◌, ◌+◌,
  if◌then◌else◌,
}
use ft_irc.Libcpp.{SocketLib}

unfoldable pub strip_nul : Bytes → Bytes
strip_nul [] = []
strip_nul (c ∷ line) = if c == 0 then strip_nul line else c ∷ strip_nul line

-- line.find(c)
unfoldable pub find_byte : ℕ → Bytes → Option ℕ
find_byte c [] = none
find_byte c (x ∷ xs) =
    if x == c then some 0 else elim (find_byte c xs) [ none ↦ none | some i ↦ some (suc i) ]

-- The loop, on the part of the line that begins at `start`.
unfoldable pub split_from : ℕ → Bytes → List Bytes
split_from zero rest = []
split_from (suc fuel) rest = elim (find_byte 13 rest) [
  | none ↦ if ltb 0 (length rest) then rest ∷ [] else []
  | some cr ↦ (if ltb 0 cr then take cr rest ∷ [] else []) ++ split_from fuel (drop (suc cr) rest)
]

unfoldable pub split_on_cr : Bytes → List Bytes
split_on_cr line = split_from (length line + 1) line

module _ {Io : Type 0} ⦃sock : SocketLib Io⦄ where
  unfoldable pub extract : ℕ → Io → List Bytes × Io
  extract zero io = ([], io)
  extract (suc fuel) io = elim (sock.next_line io) [
    | none ↦ ([], io)
    | some (line, rest) ↦
        let (later, end) = extract fuel rest in (split_on_cr (strip_nul line) ++ later, end)
  ]
