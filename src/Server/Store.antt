-- ===== src/Server/Store.antt =====
-- src/Server.cpp: looking clients up and queueing messages for them.
use ft_irc.Prelude.{
  Bytes, text, Map, nat_key, bytes_key, lookup, adjust, contains, include, exclude, ℕ, Bool, true,
  false, not, ◌&&◌, Option, none, some, List, [], ◌∷◌, ◌++◌, ◌==◌, if◌then◌else◌,
}
use ft_irc.Limits.{server_name}
use ft_irc.Libcpp.{StrLib, SocketLib}
use ft_irc.Client.{new_profile, queue_message, Profile, Client}
use ft_irc.Server.{Server}

-- What a pointer to no client would be read as.
unfoldable pub blank : Profile
blank = new_profile 0 [] 0

module _ {Io : Type 0} where
  unfoldable pub profiles_of : Map ℕ (Client Io) → Map ℕ Profile
  profiles_of [] = []
  profiles_of ((fd, c) ∷ m) = (fd, c.who) ∷ profiles_of m

  abbrev pub profiles : Server Io → Map ℕ Profile
  profiles s = profiles_of s.clients

  -- What is read through a Client*.
  unfoldable pub who : Server Io → ℕ → Profile
  who s fd = elim (lookup fd (profiles s)) [ none ↦ blank | some p ↦ p ]

  unfoldable pub adjust_client : ℕ → (Client Io → Client Io) → Server Io → Server Io
  adjust_client fd f s = record s { clients = adjust fd f s.clients }

  -- A setter of Client that leaves the socket alone.
  abbrev pub set_who : (Profile → Profile) → Client Io → Client Io
  set_who f c = record c { who = f c.who }

  unfoldable pub set_profile : ℕ → (Profile → Profile) → Server Io → Server Io
  set_profile fd f s = adjust_client fd (set_who f) s

  unfoldable pub audit : Bytes → Bytes → Bytes → Server Io → Server Io
  audit event actor detail s = record s {
    audits = record { event = event; actor = actor; detail = detail } ∷ s.audits;
  }

module _ ⦃str : StrLib⦄ where
  -- The loop of findClientByNick.
  unfoldable pub find_by_nick : Bytes → Map ℕ Profile → Option ℕ
  find_by_nick nick [] = none
  find_by_nick nick ((fd, p) ∷ m) =
      if p.registered && not p.tearing_down && str.eq_ascii_nocase p.nickname nick
      then some fd
      else find_by_nick nick m

  -- The loop of isNickInUse.
  unfoldable pub nick_taken : Bytes → ℕ → Map ℕ Profile → Bool
  nick_taken nick except [] = false
  nick_taken nick except ((fd, p) ∷ m) =
      if not (fd == except) && not p.tearing_down && str.eq_ascii_nocase p.nickname nick
      then true
      else nick_taken nick except m

module _ {Io : Type 0} ⦃str : StrLib⦄ where
  unfoldable pub find_client_by_nick : Server Io → Bytes → Option ℕ
  find_client_by_nick s nick = find_by_nick nick (profiles s)

  unfoldable pub is_nick_in_use : Server Io → Bytes → ℕ → Bool
  is_nick_in_use s nick except = nick_taken nick except (profiles s)

module _ {Io : Type 0} ⦃sock : SocketLib Io⦄ where
  -- client->queueMessage(msg)
  unfoldable pub queue_to : ℕ → Bytes → Server Io → Server Io
  queue_to fd msg s = adjust_client fd (queue_message msg) s

  unfoldable pub send_to_client : ℕ → Bytes → Server Io → Server Io
  send_to_client fd msg s = queue_to fd (text ":" ++ server_name ++ text " " ++ msg) s

  unfoldable pub send_reply : ℕ → Bytes → Bytes → Server Io → Server Io
  send_reply fd numeric params s =
      queue_to fd
        (text ":"
          ++ server_name
          ++ text " "
          ++ numeric
          ++ text " "
          ++ (who s fd).nickname
          ++ text " "
          ++ params)
        s

  -- A loop that queues lines for one client.
  unfoldable pub queue_lines : ℕ → List Bytes → Server Io → Server Io
  queue_lines fd [] s = s
  queue_lines fd (line ∷ lines) s = queue_lines fd lines (queue_to fd line s)

  -- Channel::broadcastMessage, over the member list.
  unfoldable pub broadcast : List ℕ → Bytes → Option ℕ → Server Io → Server Io
  broadcast [] msg exclude s = s
  broadcast (fd ∷ members) msg excluded s =
      broadcast members msg excluded
        (if elim excluded [ none ↦ false | some e ↦ fd == e ] then s else queue_to fd msg s)

  -- The inner loop of teardownClientState and of broadcastToChannels: a line for each member that
  -- is not in `already_sent`.
  unfoldable pub send_once : List ℕ → Bytes → List ℕ × Server Io → List ℕ × Server Io
  send_once [] msg acc = acc
  send_once (fd ∷ members) msg (sent, s) =
      send_once members msg
        (if contains fd sent then (sent, s) else (include fd sent, queue_to fd msg s))
