-- ===== src/Server/Quiet.antt =====
-- Operations that change nothing but what is queued for the clients, the audit trail and the
-- extensions' own state.
use ft_irc.Prelude.{
  Bytes, Map, nat_key, bytes_key, lookup, adjust, contains, include, ℕ, ◌≡◌, refl, ap, ◌∙◌, false,
  Option, none, some, List, [], ◌∷◌, arith, ◌==◌, if◌then◌else◌, if_ind,
}
use ft_irc.Libcpp.{StrLib, SocketLib}
use ft_irc.Client.{queue_message, Profile, Client}
use ft_irc.Server.{Extension, Server}
use ft_irc.Server.Channels.{channel_key, find_channel}
use ft_irc.Server.Store.{
  profiles_of, profiles, who, adjust_client, audit, queue_to, send_to_client, send_reply,
  queue_lines, broadcast, send_once,
}

pub record Quiet {Io : Type 0} (s t : Server Io) : Type 0 where
  pub same_profiles : profiles t ≡ profiles s
  pub same_channels : t.channels ≡ s.channels
  pub same_password : t.password ≡ s.password

pub adjust_id : {V : Type 0} (fd : ℕ) (m : Map ℕ V) → adjust fd (λ v. v) m ≡ m
unfolding adjust
adjust_id fd [] = refl
adjust_id fd ((j, v) ∷ m) = ground (arith, adjust_id fd m)

module _ {Io : Type 0} where
  pub Quiet-refl : (s : Server Io) → Quiet s s
  Quiet-refl s = record { same_profiles = refl; same_channels = refl; same_password = refl }

  pub Quiet-trans : {s t u : Server Io} → Quiet s t → Quiet t u → Quiet s u
  Quiet-trans p q = record {
    same_profiles = q.same_profiles ∙ p.same_profiles;
    same_channels = q.same_channels ∙ p.same_channels;
    same_password = q.same_password ∙ p.same_password;
  }

  pub profiles_of-adjust :
      (fd : ℕ) (f : Client Io → Client Io) (g : Profile → Profile) (m : Map ℕ (Client Io))
      → ((c : Client Io) → (f c).who ≡ g c.who)
      → profiles_of (adjust fd f m) ≡ adjust fd g (profiles_of m)
  unfolding profiles_of adjust
  profiles_of-adjust fd f g [] h = refl
  profiles_of-adjust fd f g ((j, c) ∷ m) h = ground (arith, h c, profiles_of-adjust fd f g m h)

module _ {Io : Type 0} ⦃sock : SocketLib Io⦄ where
  pub queue_to-Quiet : (fd : ℕ) (msg : Bytes) (s : Server Io) → Quiet s (queue_to fd msg s)
  unfolding queue_to adjust_client queue_message
  queue_to-Quiet fd msg s = record {
    same_profiles =
        profiles_of-adjust fd (queue_message msg) (λ p. p) s.clients (λ c. refl)
        ∙ adjust_id fd (profiles s);
    same_channels = refl;
    same_password = refl;
  }

  pub send_to_client-Quiet :
      (fd : ℕ) (msg : Bytes) (s : Server Io) → Quiet s (send_to_client fd msg s)
  unfolding send_to_client
  send_to_client-Quiet fd msg s = queue_to-Quiet fd _ s

  pub send_reply-Quiet :
      (fd : ℕ) (numeric params : Bytes) (s : Server Io) → Quiet s (send_reply fd numeric params s)
  unfolding send_reply
  send_reply-Quiet fd numeric params s = queue_to-Quiet fd _ s

  pub queue_lines-Quiet :
      (fd : ℕ) (lines : List Bytes) (s : Server Io) → Quiet s (queue_lines fd lines s)
  unfolding queue_lines
  queue_lines-Quiet fd [] s = Quiet-refl s
  queue_lines-Quiet fd (line ∷ lines) s =
      Quiet-trans (queue_to-Quiet fd line s) (queue_lines-Quiet fd lines (queue_to fd line s))

  pub broadcast-Quiet :
      (members : List ℕ) (msg : Bytes) (excluded : Option ℕ) (s : Server Io)
      → Quiet s (broadcast members msg excluded s)
  unfolding broadcast
  broadcast-Quiet [] msg excluded s = Quiet-refl s
  broadcast-Quiet (fd ∷ members) msg excluded s =
      Quiet-trans
        (if_ind (Quiet s) (elim excluded [ none ↦ false | some e ↦ fd == e ]) (λ _. Quiet-refl s)
          (λ _. queue_to-Quiet fd msg s))
        (broadcast-Quiet members msg excluded _)

  pub send_once-Quiet :
      (s : Server Io) (members : List ℕ) (msg : Bytes) (acc : List ℕ × Server Io)
      → Quiet s acc.1
      → Quiet s (send_once members msg acc).1
  unfolding send_once
  send_once-Quiet s [] msg acc q = q
  send_once-Quiet s (fd ∷ members) msg (sent, t) q =
      send_once-Quiet s members msg
        (if contains fd sent then (sent, t) else (include fd sent, queue_to fd msg t))
        (if_ind (λ (a : List ℕ × Server Io). Quiet s a.1) (contains fd sent) (λ _. q)
          (λ _. Quiet-trans q (queue_to-Quiet fd msg t)))

module _ {Io : Type 0} where
  pub audit-Quiet :
      (event actor detail : Bytes) (s : Server Io) → Quiet s (audit event actor detail s)
  unfolding audit
  audit-Quiet event actor detail s = record {
    same_profiles = refl;
    same_channels = refl;
    same_password = refl;
  }

  -- An extension's state is written back.
  pub with_extensions-Quiet :
      (s : Server Io) (es : List Extension) → Quiet s (record s { extensions = es })
  with_extensions-Quiet s es = record {
    same_profiles = refl;
    same_channels = refl;
    same_password = refl;
  }

  pub who-Quiet : {s t : Server Io} (fd : ℕ) → Quiet s t → who t fd ≡ who s fd
  unfolding who
  who-Quiet fd q = rw (q.same_profiles, who)

-- One more quiet operation behind others.
module _ {Io : Type 0} ⦃sock : SocketLib Io⦄ {s t : Server Io} (q : Quiet s t) where
  pub then_reply : (fd : ℕ) (numeric params : Bytes) → Quiet s (send_reply fd numeric params t)
  then_reply fd numeric params = Quiet-trans q (send_reply-Quiet fd numeric params t)

  pub then_queue : (fd : ℕ) (msg : Bytes) → Quiet s (queue_to fd msg t)
  then_queue fd msg = Quiet-trans q (queue_to-Quiet fd msg t)

  pub then_broadcast :
      (members : List ℕ) (msg : Bytes) (excluded : Option ℕ)
      → Quiet s (broadcast members msg excluded t)
  then_broadcast members msg excluded = Quiet-trans q (broadcast-Quiet members msg excluded t)

module _ {Io : Type 0} {s t : Server Io} (q : Quiet s t) where
  pub then_audit : (event actor detail : Bytes) → Quiet s (audit event actor detail t)
  then_audit event actor detail = Quiet-trans q (audit-Quiet event actor detail t)

module _ {Io : Type 0} ⦃str : StrLib⦄ where
  pub find_channel-Quiet :
      {s t : Server Io} (name : Bytes) → Quiet s t → find_channel t name ≡ find_channel s name
  unfolding find_channel
  find_channel-Quiet name q = ap (lookup (channel_key name)) q.same_channels
