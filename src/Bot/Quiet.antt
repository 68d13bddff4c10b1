-- ===== src/Bot/Quiet.antt =====
-- src/Bot.cpp: the bot only queues replies.
use ft_irc.Prelude.{Bytes, text, bytes_eq, ℕ, not, ◌||◌, ◌==◌, if_ind, Option_ind, get_or, is_nil}
use ft_irc.Libcpp.{StrLib, SocketLib}
use ft_irc.Server.{Server}
use ft_irc.Server.Channels.{find_channel}
use ft_irc.Server.Quiet.{Quiet-refl, Quiet-trans, queue_to-Quiet, Quiet}
use ft_irc.Bot.{
  skip_spaces, take_word, bot_reply, bot_help, bot_time, bot_channel_info, bot_info, bot_message,
}

module _ {Io : Type 0} ⦃str : StrLib⦄ ⦃sock : SocketLib Io⦄ where
  bot_reply-Quiet : (fd : ℕ) (msg : Bytes) (s : Server Io) → Quiet s (bot_reply fd msg s)
  unfolding bot_reply
  bot_reply-Quiet fd msg s = queue_to-Quiet fd _ s

  then_bot : {s t : Server Io} → Quiet s t → (fd : ℕ) (msg : Bytes) → Quiet s (bot_reply fd msg t)
  then_bot {t = t} q fd msg = Quiet-trans q (bot_reply-Quiet fd msg t)

  bot_help-Quiet : (fd : ℕ) (s : Server Io) → Quiet s (bot_help fd s)
  unfolding bot_help
  bot_help-Quiet fd s =
      then_bot (then_bot (then_bot (then_bot (then_bot (Quiet-refl s) fd _) fd _) fd _) fd _) fd _

  bot_info-Quiet : (fd : ℕ) (name : Bytes) (s : Server Io) → Quiet s (bot_info fd name s)
  unfolding bot_info bot_channel_info
  bot_info-Quiet fd name s =
      if_ind (Quiet s) (is_nil name || not (get_or name 0 0 == b'#')) (λ _. bot_reply-Quiet fd _ s)
        λ _.
          Option_ind (Quiet s) (find_channel s name) (λ _. bot_reply-Quiet fd _ s)
            λ chan _.
              if_ind (Quiet s) (is_nil chan.topic) (λ _. bot_reply-Quiet fd _ s)
                (λ _. then_bot (bot_reply-Quiet fd _ s) fd _)

  pub bot_message-Quiet :
      (next fd : ℕ) (msg : Bytes) (s : Server Io) → Quiet s (bot_message next fd msg s).1
  unfolding bot_message bot_time
  bot_message-Quiet next fd msg s =
      let cmd = (take_word (skip_spaces msg)).0 in
      if_ind (λ (r : ℕ × Server Io). Quiet s r.1) (is_nil msg) (λ _. Quiet-refl s)
        λ _.
          if_ind (λ (r : ℕ × Server Io). Quiet s r.1) (bytes_eq cmd (text "!help"))
            (λ _. bot_help-Quiet fd s)
            λ _.
              if_ind (λ (r : ℕ × Server Io). Quiet s r.1) (bytes_eq cmd (text "!time"))
                (λ _. bot_reply-Quiet fd _ s)
                λ _.
                  if_ind (λ (r : ℕ × Server Io). Quiet s r.1) (bytes_eq cmd (text "!info"))
                    (λ _. bot_info-Quiet fd _ s)
                    λ _.
                      if_ind (λ (r : ℕ × Server Io). Quiet s r.1) (bytes_eq cmd (text "!joke"))
                        (λ _. bot_reply-Quiet fd _ s) (λ _. bot_reply-Quiet fd _ s)
