-- ===== src/Examples/Session.antt =====
-- A session: two clients connect, register and meet in a channel, and one of them quits.
use ft_irc.Channel.{Channel}
use ft_irc.Prelude.{
  Bytes, text, bytes_eq, nat_key, bytes_key, ℕ, true, false, Option, none, some, List, [], ◌∷◌,
  ◌++◌, map, ◌==◌, if◌then◌else◌,
}
use ft_irc.Message.{Message}
use ft_irc.Grammar.MatchResult.{MatchResult}
use ft_irc.Client.{Profile}
use ft_irc.Server.{new_server, Server}
use ft_irc.EventLoop.Iteration.{run_iteration, Event, bytes, accepted, ready}
use ft_irc.Examples.Libraries.{upper_byte, map_bytes, split_parts, plain_str, plain_sock, Buffers}

-- A parser that knows a few words: a command and its parameters, cut at the spaces; the last may
-- begin with a colon. A word of JOIN or KICK is captured as the grammar names it.
abbrev drop_colon : Bytes → Bytes
drop_colon [] = []
drop_colon (c ∷ cs) = if c == b':' then cs else c ∷ cs

abbrev drop_colons : List Bytes → List Bytes
drop_colons [] = []
drop_colons (w ∷ ws) = drop_colon w ∷ drop_colons ws

abbrev pub capture : List Bytes → List Bytes → Option MatchResult
capture names params =
    some (record {
      captures = names;
      values = map (λ p. p ∷ []) params;
      sequence = params;
      owners = [];
    })

abbrev captures_of : Bytes → List Bytes → Option MatchResult
captures_of command params =
    if bytes_eq command (text "JOIN")
    then capture (text "chanlist" ∷ text "keylist" ∷ []) params
    else (if bytes_eq command (text "KICK")
        then capture (text "kickchans" ∷ text "kickusers" ∷ text "kickreason" ∷ []) params
        else none)

abbrev pub parse_words : Bytes → Option Message
parse_words line = elim (split_parts line 32) [
  | [] ↦ none
  | command ∷ words ↦ some (record {
    command = map_bytes upper_byte command;
    params = drop_colons words;
    fields = captures_of command (drop_colons words);
    trailing_index = some 3;
  })
]

abbrev pub lf : Bytes → Bytes
lf line = line ++ (13 ∷ 10 ∷ [])

-- What a descriptor sends.
abbrev pub sends : ℕ → ℕ → Bytes → ℕ × Event
sends now fd input = (now, ready fd (some (bytes input)) none false)

abbrev pub empty_server : Server Buffers
empty_server = new_server (text "pw") 10 100

abbrev pub both_connect : List (ℕ × Event)
both_connect = (100, accepted 5 (text "h")) ∷ (100, accepted 6 (text "h")) ∷ []

abbrev pub both_register : List (ℕ × Event)
both_register =
    sends 101 5 (lf (text "PASS pw") ++ lf (text "NICK ann") ++ lf (text "USER a 0 * :A"))
    ∷ sends 101 6 (lf (text "PASS pw") ++ lf (text "NICK bob") ++ lf (text "USER b 0 * :B"))
    ∷ []

abbrev pub connected : Server Buffers
connected = run_iteration parse_words both_connect 100 empty_server

-- Both clients have sent what registers them.
abbrev pub registered : Server Buffers
registered = run_iteration parse_words both_register 101 connected

abbrev pub person : ℕ → Bytes → Bytes → Bytes → Profile
person fd nickname username realname = record {
  fd = fd;
  nickname = nickname;
  username = username;
  realname = realname;
  hostname = text "h";
  password = text "pw";
  registered = true;
  pass_sent = true;
  nick_set = true;
  user_set = true;
  last_activity = 102;
  ping_sent = false;
  pending_close = false;
  pending_close_since = 0;
  tearing_down = false;
  invisible = false;
  wallops = false;
}

abbrev pub both_join : List (ℕ × Event)
both_join = sends 102 5 (lf (text "JOIN #c")) ∷ sends 102 6 (lf (text "JOIN #c")) ∷ []

-- Both clients are in the channel, and the first is its operator.
abbrev pub met : Server Buffers
met = run_iteration parse_words both_join 102 registered

abbrev pub meeting : Channel
meeting = record {
  name = text "#c";
  topic = [];
  topic_setter = [];
  topic_time = 0;
  creation_time = 102;
  key = [];
  user_limit = 0;
  invite_only = false;
  topic_restricted = false;
  members = 5 ∷ 6 ∷ [];
  operators = 5 ∷ [];
  invite_list = [];
}

abbrev pub ann_quits : List (ℕ × Event)
ann_quits = sends 103 5 (lf (text "QUIT bye")) ∷ []

-- The first client has quit, and what is queued for it is still to be sent.
abbrev pub leaving : Server Buffers
leaving = run_iteration parse_words ann_quits 103 met

abbrev pub quitter : Profile
quitter = record (person 5 (text "ann") (text "a") (text "A")) {
  last_activity = 103;
  pending_close = true;
  pending_close_since = 103;
  tearing_down = true;
}
