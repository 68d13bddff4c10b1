-- ===== src/Channel/Names.antt =====
-- src/Channel.cpp: the loop of `Channel::getNamesChunks`, which packs the entries of the member
-- list into lines of at most `budget` bytes.
pub mod Packing
use ft_irc.Prelude.{
  Bytes, text, nat_key, bytes_key, contains, ℕ, ◌+◌, not, ◌&&◌, List, [], ◌∷◌, ◌++◌, ltb,
  if◌then◌else◌, length, is_nil,
}

-- The entry of a member: a '@' before the nickname of an operator.
unfoldable pub names_entry : List ℕ → (ℕ → Bytes) → ℕ → Bytes
names_entry operators nick fd = (if contains fd operators then text "@" else []) ++ nick fd

-- One round of the loop, on the pair of `chunks` and `cur`.
unfoldable pub add_entry : ℕ → Bytes → List Bytes × Bytes → List Bytes × Bytes
add_entry budget entry (chunks, cur) =
    if not (is_nil cur) && ltb budget (length cur + 1 + length entry)
    then (chunks ++ cur ∷ [], entry)
    else (chunks, (if not (is_nil cur) then cur ++ text " " else cur) ++ entry)

unfoldable pub names_loop : ℕ → List Bytes → List Bytes × Bytes → List Bytes × Bytes
names_loop budget [] acc = acc
names_loop budget (e ∷ es) acc = names_loop budget es (add_entry budget e acc)

abbrev pub finish_chunks : List Bytes × Bytes → List Bytes
finish_chunks (chunks, cur) = if not (is_nil cur) then chunks ++ cur ∷ [] else chunks

unfoldable pub names_chunks : ℕ → List Bytes → List Bytes
names_chunks budget entries =
    let chunks = finish_chunks (names_loop budget entries ([], [])) in
    if is_nil chunks then [] ∷ [] else chunks
