-- ===== src/Reachable/Masks.antt =====
-- src/Server.cpp: after updateEpollInterest for every client, no input is awaited from a client that
-- is only flushed.
use ft_irc.Invariant.Registration.{who-lookup}
use ft_irc.Server.Store.{profiles_of, profiles, who}
use ft_irc.Server.{Mask, Server}
use ft_irc.Client.{Profile, Client}
use ft_irc.Libcpp.{StrLib, SocketLib}
use ft_irc.Prelude.Maps.Laws.{lookup-insert}
use ft_irc.Prelude.{
  Map, nat_key, bytes_key, lookup, contains, ℕ, ◌≡◌, refl, sym, ap, ◌∙◌, true, not, some, List, [],
  ◌∷◌, arith, if◌then◌else◌, ==_iff,
}
use ft_irc.Lifecycle.{has_pending_data}
use ft_irc.EventLoop.{mask, fds, each_fd, update_epoll_interest}
use ft_irc.Reachable.{MaskOk}

module _ {Io : Type 0} ⦃str : StrLib⦄ ⦃sock : SocketLib Io⦄ where
  -- The mask that a client is to have.
  wanted : ℕ → Server Io → Mask
  wanted fd s = mask (not (who s fd).pending_close) (has_pending_data fd s)

  updated : List ℕ → Server Io → Server Io
  updated l s = each_fd update_epoll_interest l s

  updated-clients : (l : List ℕ) (s : Server Io) → (updated l s).clients ≡ s.clients
  unfolding updated each_fd update_epoll_interest
  updated-clients [] s = refl
  updated-clients (fd ∷ l) s = updated-clients l (update_epoll_interest fd s)

  lookup-updated :
      (g : ℕ) (l : List ℕ) (s : Server Io)
      → lookup g (updated l s).epoll_mask
        ≡ (if contains g l then some (wanted g s) else lookup g s.epoll_mask)
  unfolding updated each_fd update_epoll_interest wanted contains who has_pending_data
  lookup-updated g [] s = refl
  lookup-updated g (fd ∷ l) s = ground (
    arith,
    lookup-updated g l (update_epoll_interest fd s),
    lookup-insert g fd (wanted fd s) s.epoll_mask,
    ==_iff fd g,
  )

  contains-fds :
      (fd : ℕ) (m : Map ℕ (Client Io)) {p : Profile}
      → lookup fd (profiles_of m) ≡ some p
      → contains fd (fds m) ≡ true
  unfolding contains lookup profiles_of
  contains-fds fd [] e = cc
  contains-fds fd ((j, c) ∷ m) {p} e = ground (arith, contains-fds fd m {p = p})

  pub update_interest-MaskOk :
      (s : Server Io) → MaskOk (each_fd update_epoll_interest (fds s.clients) s)
  unfolding updated wanted
  update_interest-MaskOk s fd p m e em closing =
      let there : lookup fd (profiles s) ≡ some p =
        ap (λ (c : Map ℕ (Client Io)). lookup fd (profiles_of c))
          (sym (updated-clients (fds s.clients) s))
        ∙ e in
      let named : contains fd (fds s.clients) ≡ true = contains-fds fd s.clients there in
      let found : some (wanted fd s) ≡ some m =
        sym (rw named at (lookup-updated fd (fds s.clients) s)) ∙ em in
      ground (arith, found, who-lookup s fd there)
