-- ===== src/FileTransfer/Chunks.antt =====
-- src/bonus/FileTransferExt.cpp: the tests on file names and base64 chunks.
use ft_irc.Prelude.{
  Bytes, text, bytes_eq, ℕ, ◌+◌, ◌-◌, ◌*◌, ◌/◌, Bool, not, ◌&&◌, ◌||◌, ltb, leb, ◌==◌,
  if◌then◌else◌, length, get_or, is_nil, all,
}

abbrev max_chunk_b64 : ℕ
max_chunk_b64 = 400

abbrev max_filename : ℕ
max_filename = 64

abbrev bad_filename_byte : ℕ → Bool
bad_filename_byte c = leb c 32 || c == 0x7f || c == b'/' || c == 0x5c || c == b','

unfoldable pub is_valid_filename : Bytes → Bool
is_valid_filename name =
    not (is_nil name)
    && not (ltb max_filename (length name))
    && not (bytes_eq name (text "."))
    && not (bytes_eq name (text ".."))
    && all (λ c. not (bad_filename_byte c)) name

abbrev is_base64_byte : ℕ → Bool
is_base64_byte c =
    (leb b'A' c && leb c b'Z')
    || (leb b'a' c && leb c b'z')
    || (leb b'0' c && leb c b'9')
    || c == b'+'
    || c == b'/'
    || c == b'='

unfoldable pub is_base64_chunk : Bytes → Bool
is_base64_chunk chunk =
    not (is_nil chunk) && not (ltb max_chunk_b64 (length chunk)) && all is_base64_byte chunk

-- chunk[chunk.size() - k] == '=', where the chunk is that long.
abbrev ends_with_pad : Bytes → ℕ → Bool
ends_with_pad chunk k = leb k (length chunk) && get_or chunk (length chunk - k) 0 == b'='

unfoldable pub decoded_bytes : Bytes → ℕ
decoded_bytes chunk =
    let pad = (if ends_with_pad chunk 1 then 1 else 0) + (if ends_with_pad chunk 2 then 1 else 0) in
    let raw = length chunk * 3 / 4 in if ltb pad raw then raw - pad else 0
