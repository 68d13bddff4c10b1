-- ===== src/Grammar/Derivation.antt =====
-- What a grammar says of a line, with no order of search in it: the node `n` derives the bytes
-- from position `i` up to `j`, and the captures are those of its references in the order in which
-- they end.
use ft_irc.Prelude.{
  Bytes, ℕ, suc, ◌+◌, ◌-◌, ◌≤◌, ◌<◌, ◌≡◌, Bool, true, false, ◌&&◌, Option, none, some, List, [],
  ◌∷◌, ◌++◌, ◌==◌, length, get_elem?, take, drop,
}
use ft_irc.Grammar.Chars.{to_lower}
use ft_irc.Grammar.Rules.{Grammar, Kind, node, child, rule_root, literal_text}

-- The slot and the text of a capture.
abbrev pub Capture : Type 0
Capture = ℕ × Bytes

abbrev pub substr : ℕ → ℕ → Bytes → Bytes
substr i n s = take n (drop i s)

-- The text stands at the head of the line, in upper or lower case.
unfoldable pub folded_prefix : Bytes → Bytes → Bool
folded_prefix [] s = true
folded_prefix (t ∷ ts) [] = false
folded_prefix (t ∷ ts) (c ∷ s) = (to_lower c == to_lower t) && folded_prefix ts s

abbrev pub AtMost : ℕ → Option ℕ → Type 0
AtMost m none = Unit
AtMost m (some hi) = m ≤ hi

module _ (g : Grammar) (line : Bytes) where
  mutual
    pub data Derives : ℕ → ℕ → ℕ → List Capture → Type 0 where
      literal :
          {n i j : ℕ}
          → (node g n).kind ≡ Kind.literal
          → j ≡ i + length (literal_text g (node g n).literal)
          → j ≤ length line
          → folded_prefix (literal_text g (node g n).literal) (drop i line) ≡ true
          → Derives n i j []
      octet :
          {n i c hi : ℕ}
          → (node g n).kind ≡ Kind.octet_range
          → (node g n).hi ≡ some hi
          → get_elem? line i ≡ some c
          → (node g n).lo ≤ c
          → c ≤ hi
          → Derives n i (suc i) []
      reference :
          {n i j root : ℕ} {cs : List Capture}
          → (node g n).kind ≡ Kind.reference
          → (node g n).capture ≡ none
          → rule_root g (node g n).lo ≡ some root
          → Derives root i j cs
          → Derives n i j cs
      captured :
          {n i j root slot : ℕ} {cs ds : List Capture}
          → (node g n).kind ≡ Kind.reference
          → (node g n).capture ≡ some slot
          → rule_root g (node g n).lo ≡ some root
          → Derives root i j cs
          → ds ≡ cs ++ (slot, substr i (j - i) line) ∷ []
          → Derives n i j ds
      sequence :
          {n i j : ℕ} {cs : List Capture}
          → (node g n).kind ≡ Kind.sequence
          → Each (node g n).first (node g n).count i j cs
          → Derives n i j cs
      branch :
          {n i j k : ℕ} {cs : List Capture}
          → (node g n).kind ≡ Kind.alternation
          → k < (node g n).count
          → Derives (child g ((node g n).first + k)) i j cs
          → Derives n i j cs
      repetition :
          {n i j m : ℕ} {cs : List Capture}
          → (node g n).kind ≡ Kind.repetition
          → (node g n).lo ≤ m
          → AtMost m (node g n).hi
          → Times (child g (node g n).first) m i j cs
          → Derives n i j cs

    -- The children from `first` on derive one part each.
    pub data Each : ℕ → ℕ → ℕ → ℕ → List Capture → Type 0 where
      each_done : {first i : ℕ} → Each first 0 i i []
      each_next :
          {first count i j k : ℕ} {cs ds es : List Capture}
          → Derives (child g first) i j cs
          → Each (suc first) count j k ds
          → es ≡ cs ++ ds
          → Each first (suc count) i k es

    pub data Times : ℕ → ℕ → ℕ → ℕ → List Capture → Type 0 where
      no_times : {n i : ℕ} → Times n 0 i i []
      once_more :
          {n m i j k : ℕ} {cs ds es : List Capture}
          → Derives n i j cs
          → Times n m j k ds
          → es ≡ cs ++ ds
          → Times n (suc m) i k es
