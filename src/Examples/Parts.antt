-- ===== src/Examples/Parts.antt =====
-- The properties of the parts that need no server, each at a concrete input.
use ft_irc.Client.Sanitize.Clean.{IsClean, extract_messages-IsClean, extract_messages-drained}
use ft_irc.Client.Outgoing.{queue_message-bounded}
use ft_irc.Channel.Names.Packing.{spaced, names_chunks-spaced, names_chunks-Fits}
use ft_irc.Channel.Names.{names_chunks}
use ft_irc.Commands.ModeLines.Packing.{pack_lines-Fits}
use ft_irc.Commands.ModeLines.Reading.{read_mode_lines, render_mode_lines-read}
use ft_irc.Commands.ModeLines.{
  render_line, line_budget, pack_lines, render_mode_lines, ModeChange, ModeLine,
}
use ft_irc.Limits.{max_msglen}
use ft_irc.Prelude.{
  Bytes, text, nat_key, bytes_key, ℕ, zero, suc, ◌-◌, ◌≤◌, ◌≡◌, refl, ◌⊎◌, Bool, true, false, ◌&&◌,
  ◌||◌, none, List, [], ◌∷◌, ◌++◌, arith, ◌==◌, length, take, All,
}
use ft_irc.Client.{queue_message, extract_messages, Client}
use ft_irc.Examples.Libraries.{plain_str, plain_sock, plain_sock-laws, Buffers}
use ft_irc.Examples.Session.{person}

abbrev some_changes : List ModeChange
some_changes =
    record { adding = true; letter = b'i'; arg = [] }
    ∷ record { adding = false; letter = b'k'; arg = text "key" }
    ∷ record { adding = true; letter = b'o'; arg = text "bob" }
    ∷ record { adding = false; letter = b'l'; arg = [] }
    ∷ []

-- Which modes have a parameter.
abbrev with_parameter : Bool → ℕ → Bool
with_parameter adding letter = letter == b'o' || letter == b'k' || (letter == b'l' && adding)

-- A head that leaves room for eleven bytes.
abbrev filler : ℕ → Bytes
filler zero = []
filler (suc n) = b'x' ∷ filler n

render_mode_lines-read_example :
    read_mode_lines with_parameter
      (length (filler 499))
      (render_mode_lines (filler 499) some_changes)
    ≡ some_changes
unfolding text
render_mode_lines-read_example = render_mode_lines-read with_parameter (filler 499) some_changes (
  ((refl, refl), refl, tt, refl),
  (
    ((refl, refl), refl, (refl, (refl, (refl, tt))), refl),
    (((refl, refl), refl, (refl, (refl, (refl, tt))), refl), (((refl, refl), refl, tt, refl), tt)),
  ),
)

pack_lines-Fits_example :
    All
      (λ (l : ModeLine).
        (l.taken ≡ 1) ⊎ (length (render_line (text ":a MODE #c ") l) ≤ line_budget))
      (pack_lines (length (text ":a MODE #c ")) some_changes)
pack_lines-Fits_example = pack_lines-Fits (text ":a MODE #c ") some_changes

abbrev some_names : List Bytes
some_names = text "@ann" ∷ text "bob" ∷ text "eve" ∷ []

names_chunks-spaced_example : spaced (names_chunks 8 some_names) ≡ spaced some_names
unfolding text
names_chunks-spaced_example = names_chunks-spaced 8 some_names (refl, (refl, (refl, tt)))

names_chunks-Fits_example :
    All (λ (chunk : Bytes). (length chunk ≤ 8) ⊎ (length chunk ≤ 4)) (names_chunks 8 some_names)
unfolding text
names_chunks-Fits_example =
    names_chunks-Fits 8 (λ (w : Bytes). length w ≤ 4) some_names
      (omega arith, (omega arith, (omega arith, tt)))

abbrev chatty : Client Buffers
chatty = record {
  who = person 5 (text "ann") (text "a") (text "A");
  io = record {
    received = text "NICK" ++ (0 ∷ 13 ∷ 13 ∷ b'x' ∷ 13 ∷ 10 ∷ []);
    unsent = [];
    limit = 10;
    full = false;
  };
}

extract_messages-IsClean_example : All IsClean (extract_messages chatty).0
extract_messages-IsClean_example = extract_messages-IsClean chatty

extract_messages-drained_example : plain_sock.next_line (extract_messages chatty).1.io ≡ none
extract_messages-drained_example = extract_messages-drained plain_sock-laws chatty

queue_message-bounded_example :
    (line : Bytes) × (queue_message (text "hello") chatty
      ≡ record chatty { io = plain_sock.queue chatty.io line })
    × (length line ≤ max_msglen - 2)
    × (line ≡ take (max_msglen - 2) (text "hello"))
    × (length (text "hello") ≤ max_msglen - 2 → line ≡ text "hello")
queue_message-bounded_example = queue_message-bounded (text "hello") chatty
