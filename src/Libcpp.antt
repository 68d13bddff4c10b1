-- ===== src/Libcpp.antt =====
-- The submodule vendor/libcpp, which the server links: libcpp98::BufferedSocket, the functions of
-- libcpp::str and the C library's clock format. They are parameters of the model; `StrLaws` and
-- `SocketLaws` state the behaviour that tests/test_libcpp_str.cpp and tests/test_libcpp98.cpp fix.
use ft_irc.Prelude.{ℕ, ◌≤◌, ◌<◌, ◌≡◌, ◌↔◌, Bytes, Bool, true, List, [], Option, some, All, ◌≢◌}

pub record StrLib : Type 0 where
  pub ascii_to_lower : Bytes → Bytes
  pub to_upper : Bytes → Bytes
  pub eq_ascii_nocase : Bytes → Bytes → Bool
  pub eq_consttime : Bytes → Bytes → Bool
  pub to_string : ℕ → Bytes
  -- The value, if the text is a decimal number between the two bounds.
  pub parse_long : Bytes → ℕ → ℕ → Option ℕ
  pub parse_ulong : Bytes → ℕ → ℕ → Option ℕ
  pub split : Bytes → ℕ → List Bytes
  pub split_nonempty : Bytes → ℕ → List Bytes
  -- strftime of std::localtime
  pub format_time : ℕ → Bytes

pub record StrLaws (str : StrLib) : Type 0 where
  pub nocase_iff :
      (a b : Bytes)
      → (str.eq_ascii_nocase a b ≡ true) ↔ (str.ascii_to_lower a ≡ str.ascii_to_lower b)
  pub consttime_iff : (a b : Bytes) → (str.eq_consttime a b ≡ true) ↔ (a ≡ b)
  pub parse_long_range :
      (s : Bytes) (lo hi n : ℕ) → str.parse_long s lo hi ≡ some n → (lo ≤ n) × (n ≤ hi)
  pub parse_ulong_range :
      (s : Bytes) (lo hi n : ℕ) → str.parse_ulong s lo hi ≡ some n → (lo ≤ n) × (n ≤ hi)
  pub split_nonempty_ne : (s : Bytes) (c : ℕ) → All (λ part. part ≢ []) (str.split_nonempty s c)

pub record SocketLib (Io : Type 0) : Type 0 where
  -- BufferedSocket(maxLine, maxSendQ)
  pub fresh : ℕ → ℕ → Io
  pub feed : Io → Bytes → Io
  pub next_line : Io → Option (Bytes × Io)
  pub queue : Io → Bytes → Io
  pub out_data : Io → Bytes
  pub consume : Io → ℕ → Io
  pub has_pending : Io → Bool
  pub overflowed : Io → Bool
  -- The number of received bytes that are still buffered.
  pub buffered : Io → ℕ

pub record SocketLaws {Io : Type 0} (sock : SocketLib Io) : Type 0 where
  -- A line is taken out of the buffer together with its line end.
  pub next_line_shrinks :
      (io : Io) (line : Bytes) (rest : Io)
      → sock.next_line io ≡ some (line, rest)
      → sock.buffered rest < sock.buffered io
  -- An overflow latches.
  pub overflow_latches :
      (io : Io) (m : Bytes) → sock.overflowed io ≡ true → sock.overflowed (sock.queue io m) ≡ true
