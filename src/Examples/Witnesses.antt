-- ===== src/Examples/Witnesses.antt =====
-- The properties of the server, each at a concrete input of the session.
use ft_irc.Commands.Messaging.Delivery.{privmsg_channel-delivers}
use ft_irc.Commands.Messaging.{message_line, privmsg_channel}
use ft_irc.Server.Delivery.{given}
use ft_irc.FileTransfer.Disconnected.{IsDeparted, disconnect_client-IsDeparted}
use ft_irc.EventLoop.{mask}
use ft_irc.Server.{Transfer, Server, bot, file_transfer, audit_log}
use ft_irc.FileTransfer.Commands.{file_command}
use ft_irc.FileTransfer.Bounds.{TransfersOk, CountOk, file_command-CountOk}
use ft_irc.FileTransfer.Chunks.{is_valid_filename}
use ft_irc.Grammar.MatchResult.{values_of, field_at}
use ft_irc.Authority.Operators.{cmd_kick-kept, cmd_topic-kept, cmd_mode-kept}
use ft_irc.Authority.Unregistered.{dispatch_command-kept}
use ft_irc.Authority.Departed.{disconnect_client-AllForget}
use ft_irc.Authority.Join.{with_member, join_one-found}
use ft_irc.Isolation.Dispatch.{dispatch_command-Local}
use ft_irc.Isolation.{Local}
use ft_irc.Invariant.Dispatch.{dispatch_command-Inv}
use ft_irc.Invariant.Registration.{who-lookup}
use ft_irc.Invariant.{Inv}
use ft_irc.Membership.Forgotten.{AllForget}
use ft_irc.Commands.Operator.{cmd_kick, cmd_topic, cmd_mode}
use ft_irc.Commands.Channels.{join_one}
use ft_irc.Dispatch.{dispatch_command}
use ft_irc.Dispatch.Gate.{dispatch_command-unregistered}
use ft_irc.Examples.Libraries.{plain_str, plain_str-laws, plain_sock, Buffers}
use ft_irc.Lifecycle.{disconnect_client, disconnect_client_now}
use ft_irc.Server.Channels.{channel_key, find_channel}
use ft_irc.Channel.{is_member, is_operator, Channel}
use ft_irc.Validation.{is_valid_nickname, is_valid_channel_name}
use ft_irc.Limits.{max_nicklen}
use ft_irc.Prelude.{
  Bytes, text, bytes_eq, Map, nat_key, bytes_key, lookup, contains, ℕ, ◌≤◌, ◌≡◌, refl, sym, ap, ◌∙◌,
  ◌≢◌, true, false, ◌||◌, Option, none, some, some-injective, List, [], ◌∷◌, arith, length, is_nil,
  All,
}
use ft_irc.Message.{matched, field, Message}
use ft_irc.Client.{Profile}
use ft_irc.Server.Store.{profiles, who, send_reply}
use ft_irc.Reachable.Iteration.{Reach-Steady}
use ft_irc.Reachable.Consequences.{
  registered-authenticated, nicknames-distinct, channel-pointers, closing-not-read,
}
use ft_irc.Examples.Libraries.{plain_str, plain_str-laws, plain_sock}
use ft_irc.Examples.Session.{
  capture, parse_words, connected, person, met, meeting, leaving, quitter,
}
use ft_irc.Examples.Course.{
  connected-Reach, newcomer, met-Reach, met-channels, met-profiles, leaving-Reach, leaving-found,
  leaving-mask,
}

abbrev ann : Profile
ann = person 5 (text "ann") (text "a") (text "A")

abbrev bob : Profile
bob = person 6 (text "bob") (text "b") (text "B")

ann-found : lookup 5 (profiles met) ≡ some ann
unfolding lookup
ann-found = ap (lookup 5) met-profiles

bob-found : lookup 6 (profiles met) ≡ some bob
unfolding lookup
bob-found = ap (lookup 6) met-profiles

registered-authenticated_example :
    (ann.password ≡ met.password)
    × (ann.user_set ≡ true)
    × (is_valid_nickname ann.nickname ≡ true)
    × (length ann.nickname ≤ max_nicklen)
registered-authenticated_example =
    registered-authenticated plain_str-laws parse_words met met-Reach 5 ann ann-found refl

nicknames-distinct_example :
    plain_str.ascii_to_lower ann.nickname ≢ plain_str.ascii_to_lower bob.nickname
nicknames-distinct_example =
    nicknames-distinct plain_str-laws parse_words met met-Reach 5 6 ann bob ann-found bob-found
      (omega arith) refl refl

meeting-found : lookup (text "#c") met.channels ≡ some meeting
unfolding lookup text bytes_eq
meeting-found = ap (lookup (text "#c")) met-channels

channel-pointers_example :
    (text "#c" ≡ channel_key meeting.name)
    × (is_nil meeting.members ≡ false)
    × ((fd : ℕ) → contains fd meeting.operators ≡ true → contains fd meeting.members ≡ true)
    × ((fd : ℕ)
        → contains fd meeting.members || contains fd meeting.invite_list ≡ true
        → (p : Profile) × (lookup fd (profiles met) ≡ some p)
          × (p.registered ≡ true)
          × (p.tearing_down ≡ false))
channel-pointers_example =
    channel-pointers plain_str-laws parse_words met met-Reach (text "#c") meeting meeting-found

met-Inv : Inv met
met-Inv = (Reach-Steady plain_str-laws parse_words met met-Reach).sound.inv

up :
    (fd : ℕ) (p : Profile)
    → lookup fd (profiles met) ≡ some p
    → p.tearing_down ≡ false
    → (who met fd).tearing_down ≡ false
up fd p e h = ap (λ (q : Profile). q.tearing_down) (who-lookup met fd e) ∙ h

abbrev line : Bytes → List Bytes → Message
line command params = record {
  command = command;
  params = params;
  fields = none;
  trailing_index = none;
}

abbrev kick_ann : Message
kick_ann = record {
  command = text "KICK";
  params = text "#c" ∷ text "ann" ∷ [];
  fields = capture (text "kickchans" ∷ text "kickusers" ∷ []) (text "#c" ∷ text "ann" ∷ []);
  trailing_index = none;
}

dispatch_command-Inv_example : Inv (dispatch_command 5 (line (text "QUIT") []) met)
dispatch_command-Inv_example =
    dispatch_command-Inv plain_str-laws 5 (line (text "QUIT") []) met met-Inv
      (up 5 ann ann-found refl)

dispatch_command-Local_example : Local 5 met (dispatch_command 5 (line (text "QUIT") []) met)
dispatch_command-Local_example =
    dispatch_command-Local 5 (line (text "QUIT") []) met met-Inv (up 5 ann ann-found refl)

disconnect_client-AllForget_example : AllForget 5 (disconnect_client 5 (text "bye") met).channels
disconnect_client-AllForget_example = disconnect_client-AllForget 5 (text "bye") met met-Inv

dispatch_command-kept_example :
    (dispatch_command 5 (line (text "JOIN") (text "#c" ∷ [])) connected).channels
    ≡ connected.channels
dispatch_command-kept_example =
    dispatch_command-kept 5 (line (text "JOIN") (text "#c" ∷ [])) connected
      (Reach-Steady plain_str-laws parse_words connected connected-Reach).sound.inv newcomer

dispatch_command-unregistered_example :
    dispatch_command 5 (line (text "PING") (text "x" ∷ [])) connected
    ≡ send_reply 5 (text "451") (text ":You have not registered") connected
unfolding text bytes_eq
dispatch_command-unregistered_example =
    dispatch_command-unregistered 5 (line (text "PING") (text "x" ∷ [])) connected newcomer

found-meeting : find_channel met (text "#c") ≡ some meeting
unfolding find_channel lookup text bytes_eq
found-meeting = ap (lookup (text "#c")) met-channels

valid_name : is_valid_channel_name (text "#c") ≡ true
unfolding is_valid_channel_name text
valid_name = refl

join_one-found_example :
    find_channel (join_one 7 (text "#c") [] met) (text "#c") ≡ some (with_member 7 meeting)
unfolding text contains
join_one-found_example = join_one-found 7 (text "#c") [] met meeting valid_name found-meeting

bob-no_operator : (c : Channel) → find_channel met (text "#c") ≡ some c → is_operator 6 c ≡ false
unfolding is_operator contains
bob-no_operator c e =
    ap (λ (o : Option Channel). elim o [ none ↦ false | some d ↦ is_operator 6 d ])
      (sym e ∙ found-meeting)

cmd_kick-kept_example : (cmd_kick 6 kick_ann met).channels ≡ met.channels
unfolding text field matched field_at values_of bytes_eq
cmd_kick-kept_example = cmd_kick-kept 6 kick_ann met bob-no_operator

cmd_mode-kept_example :
    (cmd_mode 6 (line (text "MODE") (text "#c" ∷ text "+i" ∷ [])) met).channels ≡ met.channels
cmd_mode-kept_example =
    cmd_mode-kept 6 (line (text "MODE") (text "#c" ∷ text "+i" ∷ [])) met bob-no_operator

-- The channel, with its topic restricted to its operators.
abbrev guarded : Server Buffers
guarded = record met { channels = (text "#c", record meeting { topic_restricted = true }) ∷ [] }

bob-guarded :
    (c : Channel)
    → find_channel guarded (text "#c") ≡ some c
    → (c.topic_restricted ≡ true) × (is_operator 6 c ≡ false)
unfolding find_channel lookup text bytes_eq is_operator contains
bob-guarded c e =
    let same : record meeting { topic_restricted = true } ≡ c = some-injective _ c e in
    (sym (ap (λ (d : Channel). d.topic_restricted) same), sym (ap (is_operator 6) same))

cmd_topic-kept_example :
    (cmd_topic 6 (line (text "TOPIC") (text "#c" ∷ text "hi" ∷ [])) guarded).channels
    ≡ guarded.channels
cmd_topic-kept_example =
    cmd_topic-kept 6 (line (text "TOPIC") (text "#c" ∷ text "hi" ∷ [])) guarded bob-guarded

closing-not-read_example : (quitter.tearing_down ≡ true) × ((mask false true).input ≡ false)
closing-not-read_example =
    closing-not-read plain_str-laws parse_words leaving leaving-Reach 5 quitter (mask false true)
      leaving-found leaving-mask refl

abbrev half_sent : Transfer
half_sent = record {
  sender_fd = 5;
  recipient_fd = 6;
  filename = text "a.txt";
  declared_size = 10;
  relayed_bytes = 3;
  accepted = true;
  last_activity = 100;
}

half_sent-TransfersOk : TransfersOk 2 ((1, half_sent) ∷ [])
unfolding is_valid_filename text bytes_eq
half_sent-TransfersOk = (
  record {
    id_given = omega arith;
    size_positive = omega arith;
    size_allowed = omega arith;
    within_size = omega arith;
    accepted_first = λ _. refl;
    name_valid = refl;
  },
  tt,
)

abbrev data_line : Message
data_line = line (text "FILE") (text "DATA" ∷ text "1" ∷ text "QUJD" ∷ [])

file_command-CountOk_example : CountOk (file_command 5 data_line 2 ((1, half_sent) ∷ [], met))
file_command-CountOk_example =
    file_command-CountOk plain_str-laws 5 data_line 2 ((1, half_sent) ∷ []) met
      half_sent-TransfersOk

abbrev other_sent : Transfer
other_sent = record half_sent { sender_fd = 6; recipient_fd = 7 }

abbrev two_transfers : Map ℕ Transfer
two_transfers = (1, half_sent) ∷ (2, other_sent) ∷ []

-- The server with its extensions, and with transfers between the clients.
abbrev sharing : Server Buffers
sharing = record met { extensions = bot 0 ∷ file_transfer two_transfers 3 ∷ audit_log ∷ [] }

sharing-Inv : Inv sharing
sharing-Inv = record {
  distinct = met-Inv.distinct;
  table = met-Inv.table;
  people = met-Inv.people;
  unique = met-Inv.unique;
}

disconnect_client-IsDeparted_example :
    All (IsDeparted 5) (disconnect_client 5 (text "bye") sharing).extensions
    × All (IsDeparted 5) (disconnect_client_now 5 (text "bye") sharing).extensions
disconnect_client-IsDeparted_example =
    disconnect_client-IsDeparted 5 (text "bye") sharing ann sharing-Inv ann-found refl

privmsg_channel-delivers_example :
    lookup 6 (privmsg_channel 5 (text "#c") (text "hi") met).clients ≡ elim (lookup 6 met.clients) [
      | none ↦ none
      | some c ↦ some (given (message_line 5 (text "PRIVMSG") (text "#c") (text "hi") met) true c)
    ]
unfolding contains is_member
privmsg_channel-delivers_example =
    privmsg_channel-delivers 5 (text "#c") (text "hi") met meeting 6 found-meeting refl
      (refl, (refl, tt))
