-- ===== src/Validation.antt =====
-- The tests on names, keys and user names of src/Server.cpp, src/CommandOperator.cpp and
-- src/CommandRegistration.cpp. isalpha and isalnum are those of the "C" locale.
use ft_irc.Prelude.{
  Bytes, nat_key, bytes_key, ℕ, Bool, false, not, ◌&&◌, ◌||◌, [], ◌∷◌, ltb, leb, ◌==◌,
  if◌then◌else◌, length, get_or, take, is_nil, all,
}
use ft_irc.Limits.{max_channellen, max_keylen}

abbrev is_alpha : ℕ → Bool
is_alpha c = (leb b'A' c && leb c b'Z') || (leb b'a' c && leb c b'z')

abbrev is_special : ℕ → Bool
is_special c =
    c == b'['
    || c == b']'
    || c == b'{'
    || c == b'}'
    || c == 0x5c
    || c == b'|'
    || c == b'^'
    || c == b'_'

unfoldable pub nick_start : ℕ → Bool
nick_start c = is_alpha c || is_special c

unfoldable pub nick_byte : ℕ → Bool
nick_byte c = is_alpha c || (leb b'0' c && leb c b'9') || is_special c || c == b'-'

unfoldable pub is_valid_nickname : Bytes → Bool
is_valid_nickname [] = false
is_valid_nickname (c ∷ cs) = nick_start c && all nick_byte cs

unfoldable pub is_valid_channel_name : Bytes → Bool
is_valid_channel_name name =
    not (is_nil name)
    && not (ltb max_channellen (length name))
    && get_or name 0 0 == b'#'
    && not (ltb (length name) 2)
    && all (λ c. not (c == 32) && not (c == 7) && not (c == b',')) name

unfoldable pub is_valid_channel_key : Bytes → Bool
is_valid_channel_key key =
    not (is_nil key)
    && not (ltb max_keylen (length key))
    && all (λ c. not (leb c 32) && not (c == b',')) key

-- isValidUsernameChar
unfoldable pub username_byte : ℕ → Bool
username_byte c =
    (leb 1 c && leb c 9)
    || (leb 0x0b c && leb c 0x0c)
    || (leb 0x0e c && leb c 0x1f)
    || (leb 0x21 c && leb c 0x3f)
    || leb 0x41 c

unfoldable pub is_valid_username : Bytes → Bool
is_valid_username user = not (is_nil user) && all username_byte user

-- s.erase(n), if the text is longer than n.
unfoldable pub cut : ℕ → Bytes → Bytes
cut n s = if ltb n (length s) then take n s else s
