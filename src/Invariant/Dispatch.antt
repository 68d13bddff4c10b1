-- ===== src/Invariant/Dispatch.antt =====
-- src/Server.cpp: every command keeps the invariant.
use ft_irc.Server.Store.{profiles, who}
use ft_irc.Server.{Server}
use ft_irc.Message.{param, Message}
use ft_irc.Libcpp.{StrLib, StrLaws, SocketLib}
use ft_irc.Prelude.{
  Bytes, text, bytes_eq, ℕ, ◌≡◌, refl, subst, inl, inr, Bool, true, false, not, ◌&&◌, some, List,
  [], ◌∷◌, arith, Bool-cases, if_ind, Option_ind, is_nil, All,
}
use ft_irc.Server.Quiet.{queue_to-Quiet, send_reply-Quiet, then_reply}
use ft_irc.Membership.{is_live}
use ft_irc.Membership.Join.{cmd_join-Tame, cmd_part-Tame}
use ft_irc.Membership.Operator.{cmd_kick-Tame, cmd_invite-Tame, cmd_topic-Tame}
use ft_irc.Extensions.{on_command, ask_extensions}
use ft_irc.Extensions.Quiet.{ask_command-Quiet}
use ft_irc.Commands.Registration.{cmd_cap}
use ft_irc.Commands.Messaging.{cmd_pong, cmd_quit, seen_alive}
use ft_irc.Commands.Messaging.Quiet.{cmd_privmsg-Quiet, cmd_notice-Quiet, cmd_ping-Quiet}
use ft_irc.Commands.Query.Quiet.{cmd_who-Quiet, cmd_whois-Quiet, cmd_userhost-Quiet}
use ft_irc.Dispatch.{
  Command, CommandEntry, commands, find_entry, find_command, run_handler, extension_command,
  dispatch_command,
}
use ft_irc.Invariant.{Inv}
use ft_irc.Invariant.Edits.{Tame-Inv, Quiet-Inv}
use ft_irc.Invariant.Lifecycle.{is_live-who, disconnect_client-Inv}
use ft_irc.Invariant.Registration.{Plain-Inv, Plain}
use ft_irc.Invariant.Register.{cmd_pass-Inv}
use ft_irc.Invariant.Nick.{cmd_nick-Inv, cmd_user-Inv}
use ft_irc.Invariant.Modes.{cmd_mode-Inv}

-- The handlers that the table gives to registered clients alone.
abbrev pub is_gated : Command → Bool
is_gated Command.cap = false
is_gated Command.pass = false
is_gated Command.nick = false
is_gated Command.user = false
is_gated Command.quit = false
is_gated Command.pong = false
is_gated c = true

commands-gated : All (λ (e : CommandEntry). e.needs_registration ≡ is_gated e.handler) commands
unfolding commands
commands-gated = (
  refl,
  (
    refl,
    (
      refl,
      (
        refl,
        (
          refl,
          (
            refl,
            (
              refl,
              (
                refl,
                (refl, (refl, (refl, (refl, (refl, (refl, (refl, (refl, (refl, (refl, tt)))))))))),
              ),
            ),
          ),
        ),
      ),
    ),
  ),
)

find_entry-All :
    (P : CommandEntry → Type 0) (name : Bytes) (es : List CommandEntry) {e : CommandEntry}
    → All P es
    → find_entry name es ≡ some e
    → P e
unfolding find_entry
find_entry-All P name [] h e = cc
find_entry-All P name (x ∷ es) {e = e'} h e = elim (Bool-cases (bytes_eq name x.name)) [
  | inl hit ↦ let same : x ≡ e' = ground arith in subst P same h.0
  | inr miss ↦
      let later : find_entry name es ≡ some e' = ground arith in find_entry-All P name es h.1 later
]

-- What the table says of its handlers holds of an entry that is found.
pub find_command-gated :
    (name : Bytes) {e : CommandEntry}
    → find_command name ≡ some e
    → e.needs_registration ≡ is_gated e.handler
unfolding find_command
find_command-gated name e =
    find_entry-All (λ (x : CommandEntry). x.needs_registration ≡ is_gated x.handler) name commands
      commands-gated e

pub seen_alive-Plain : (now : ℕ) → Plain (seen_alive now)
unfolding seen_alive
seen_alive-Plain now = record {
  nickname_kept = λ p. refl;
  password_kept = λ p. refl;
  registered_kept = λ p. refl;
  pass_sent_kept = λ p. refl;
  nick_set_kept = λ p. refl;
  user_set_kept = λ p h. h;
  pending_close_kept = λ p. refl;
  tearing_down_kept = λ p. refl;
}

module _ {Io : Type 0} ⦃str : StrLib⦄ ⦃sock : SocketLib Io⦄ (laws : StrLaws str) (fd : ℕ)
    (msg : Message) (s : Server Io) (v : Inv s) where
  cmd_cap-Inv : Inv (cmd_cap fd msg s)
  unfolding cmd_cap
  cmd_cap-Inv =
      if_ind Inv (is_nil msg.params) (λ _. v)
        λ _.
          if_ind Inv (bytes_eq (str.to_upper (param msg 0)) (text "LS"))
            (λ _. Quiet-Inv (queue_to-Quiet fd _ s) v) (λ _. v)

  cmd_pong-Inv : Inv (cmd_pong fd msg s)
  unfolding cmd_pong
  cmd_pong-Inv = Plain-Inv fd (seen_alive s.clock) s (seen_alive-Plain s.clock) v

  cmd_quit-Inv : Inv (cmd_quit fd msg s)
  unfolding cmd_quit
  cmd_quit-Inv = disconnect_client-Inv fd _ s v

  -- A handler that the table gives to registered clients is given one.
  run_handler-Inv :
      (c : Command)
      → (is_gated c ≡ true → is_live (profiles s) fd ≡ true)
      → Inv (run_handler c fd msg s)
  unfolding run_handler
  run_handler-Inv Command.cap live = cmd_cap-Inv
  run_handler-Inv Command.pass live = cmd_pass-Inv fd msg s v
  run_handler-Inv Command.nick live = cmd_nick-Inv laws fd msg s v
  run_handler-Inv Command.user live = cmd_user-Inv laws fd msg s v
  run_handler-Inv Command.quit live = cmd_quit-Inv
  run_handler-Inv Command.pong live = cmd_pong-Inv
  run_handler-Inv Command.ping live = Quiet-Inv (cmd_ping-Quiet fd msg s) v
  run_handler-Inv Command.join live = Tame-Inv (cmd_join-Tame fd msg s (live refl)) v
  run_handler-Inv Command.part live = Tame-Inv (cmd_part-Tame fd msg s) v
  run_handler-Inv Command.privmsg live = Quiet-Inv (cmd_privmsg-Quiet fd msg s) v
  run_handler-Inv Command.notice live = Quiet-Inv (cmd_notice-Quiet fd msg s) v
  run_handler-Inv Command.kick live = Tame-Inv (cmd_kick-Tame fd msg s) v
  run_handler-Inv Command.invite live = Tame-Inv (cmd_invite-Tame fd msg s v.distinct) v
  run_handler-Inv Command.topic live = Tame-Inv (cmd_topic-Tame fd msg s) v
  run_handler-Inv Command.mode live = cmd_mode-Inv fd msg s v
  run_handler-Inv Command.who live = Quiet-Inv (cmd_who-Quiet fd msg s) v
  run_handler-Inv Command.whois live = Quiet-Inv (cmd_whois-Quiet fd msg s) v
  run_handler-Inv Command.userhost live = Quiet-Inv (cmd_userhost-Quiet fd msg s) v

  extension_command-Inv : Inv (extension_command fd msg s)
  unfolding extension_command
  extension_command-Inv =
      let q = ask_command-Quiet fd msg s in
      if_ind Inv (ask_extensions (on_command fd msg) s).1 (λ _. Quiet-Inv q v)
        (λ _. Quiet-Inv (then_reply q fd _ _) v)

  -- A message of a client that is not being torn down, whatever it says, keeps the server's
  -- invariant: the channel table is well-formed, every client is in order, nicknames are
  -- distinct and so are descriptors.
  pub dispatch_command-Inv : (who s fd).tearing_down ≡ false → Inv (dispatch_command fd msg s)
  unfolding dispatch_command
  dispatch_command-Inv up =
      Option_ind Inv (find_command msg.command)
        (λ _.
          if_ind Inv (who s fd).registered (λ _. extension_command-Inv)
            (λ _. Quiet-Inv (send_reply-Quiet fd _ _ s) v))
        λ e found.
          if_ind Inv (e.needs_registration && not (who s fd).registered)
            (λ _. Quiet-Inv (send_reply-Quiet fd _ _ s) v)
            λ allowed.
              run_handler-Inv e.handler
                (λ gated. ground (arith, is_live-who s fd, find_command-gated msg.command found))
