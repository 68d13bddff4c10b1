-- ===== src/Commands/Query/Quiet.antt =====
-- src/CommandQuery.cpp: WHO, WHOIS and USERHOST only send replies.
use ft_irc.Prelude.{
  Bytes, text, nat_key, bytes_key, contains, ℕ, ◌||◌, List, [], ◌∷◌, ltb, ◌==◌, if◌then◌else◌,
  if_ind, Option_ind, length, get_or, is_nil,
}
use ft_irc.Libcpp.{StrLib, SocketLib}
use ft_irc.Client.{Profile}
use ft_irc.Message.{param, Message}
use ft_irc.Server.{Server}
use ft_irc.Server.Store.{who, find_client_by_nick, send_reply}
use ft_irc.Server.Channels.{find_channel}
use ft_irc.Server.Quiet.{Quiet-refl, Quiet-trans, send_reply-Quiet, then_reply, Quiet}
use ft_irc.Commands.Query.{
  who_text, channel_list, who_each, cmd_who, whois, cmd_whois, cmd_userhost,
}

module _ {Io : Type 0} ⦃str : StrLib⦄ ⦃sock : SocketLib Io⦄ where
  who_each-Quiet :
      (fd : ℕ) (target : Bytes) (operators members : List ℕ) (s : Server Io)
      → Quiet s (who_each fd target operators members s)
  unfolding who_each
  who_each-Quiet fd target operators [] s = Quiet-refl s
  who_each-Quiet fd target operators (m ∷ members) s =
      let line = who_text target (who s m) (if contains m operators then text "H@" else text "H") in
      Quiet-trans (send_reply-Quiet fd (text "352") line s)
        (who_each-Quiet fd target operators members (send_reply fd (text "352") line s))

  pub cmd_who-Quiet : (fd : ℕ) (msg : Message) (s : Server Io) → Quiet s (cmd_who fd msg s)
  unfolding cmd_who
  cmd_who-Quiet fd msg s =
      if_ind (Quiet s) (is_nil msg.params || is_nil (param msg 0)) (λ _. send_reply-Quiet fd _ _ s)
        λ _.
          if_ind (Quiet s) (get_or (param msg 0) 0 0 == b'#')
            (λ _.
              Option_ind (Quiet s) (find_channel s (param msg 0)) (λ _. send_reply-Quiet fd _ _ s)
                (λ chan _. then_reply (who_each-Quiet fd _ chan.operators chan.members s) fd _ _))
            (λ _.
              Option_ind (Quiet s) (find_client_by_nick s (param msg 0))
                (λ _. send_reply-Quiet fd _ _ s)
                (λ t _. then_reply (send_reply-Quiet fd _ _ s) fd _ _))

  whois-Quiet : (fd : ℕ) (p : Profile) (t : ℕ) (s : Server Io) → Quiet s (whois fd p t s)
  unfolding whois
  whois-Quiet fd p t s =
      then_reply
        (if_ind (Quiet s) (is_nil (channel_list t s.channels []))
          (λ _. then_reply (send_reply-Quiet fd _ _ s) fd _ _)
          (λ _. then_reply (then_reply (send_reply-Quiet fd _ _ s) fd _ _) fd _ _))
        fd _ _

  pub cmd_whois-Quiet : (fd : ℕ) (msg : Message) (s : Server Io) → Quiet s (cmd_whois fd msg s)
  unfolding cmd_whois
  cmd_whois-Quiet fd msg s =
      let nick = param msg (if ltb 1 (length msg.params) then 1 else 0) in
      if_ind (Quiet s) (is_nil msg.params || is_nil nick) (λ _. send_reply-Quiet fd _ _ s)
        λ _.
          Option_ind (Quiet s) (find_client_by_nick s nick) (λ _. send_reply-Quiet fd _ _ s)
            (λ t _. whois-Quiet fd (who s t) t s)

  pub cmd_userhost-Quiet :
      (fd : ℕ) (msg : Message) (s : Server Io) → Quiet s (cmd_userhost fd msg s)
  unfolding cmd_userhost
  cmd_userhost-Quiet fd msg s =
      if_ind (Quiet s) (is_nil msg.params) (λ _. send_reply-Quiet fd _ _ s)
        (λ _. send_reply-Quiet fd _ _ s)
