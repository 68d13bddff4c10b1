-- ===== src/Membership/Lifecycle.antt =====
-- src/Server.cpp: the end of a connection keeps the channel table well-formed, and leaves no
-- channel that knows the client.
use ft_irc.Channel.{remove_member, is_member, is_empty, remove_invite, Channel}
use ft_irc.Client.{Profile}
use ft_irc.Prelude.{
  Bytes, Map, nat_key, bytes_key, lookup, erase, adjust, ℕ, ◌≡◌, inl, inr, Bool, true, false, [],
  ◌∷◌, arith, ◌==◌, if◌then◌else◌, Option-cases, if_ind,
}
use ft_irc.Prelude.Maps.Laws.{contains-exclude, lookup-erase, lookup-adjust, Each-mono}
use ft_irc.Libcpp.{StrLib}
use ft_irc.Lifecycle.{purge, mark_tearing_down}
use ft_irc.Membership.{is_live, TableOk, ChannelOk}

-- The live clients without one of them.
abbrev pub without : ℕ → (ℕ → Bool) → ℕ → Bool
without fd live g = if fd == g then false else live g

module _ (fd : ℕ) where
  pub is_live-erase :
      (g : ℕ) (ps : Map ℕ Profile) → is_live (erase fd ps) g ≡ without fd (is_live ps) g
  unfolding is_live
  is_live-erase g ps = ground (arith, lookup-erase g fd ps)

  pub is_live-mark :
      (g : ℕ) (ps : Map ℕ Profile)
      → is_live (adjust fd mark_tearing_down ps) g ≡ without fd (is_live ps) g
  unfolding is_live mark_tearing_down
  is_live-mark g ps = ground (arith, lookup-adjust g fd mark_tearing_down ps)

  -- A setter that keeps the two flags keeps the live clients.
  pub is_live-adjust :
      (f : Profile → Profile) (g : ℕ) (ps : Map ℕ Profile)
      → ((p : Profile) → ((f p).registered ≡ p.registered) × ((f p).tearing_down ≡ p.tearing_down))
      → is_live (adjust fd f ps) g ≡ is_live ps g
  unfolding is_live
  is_live-adjust f g ps h = elim (Option-cases (lookup g ps)) [
    | inl e ↦ ground (arith, lookup-adjust g fd f ps)
    | inr (p, e) ↦ ground (arith, lookup-adjust g fd f ps, h p)
  ]

module _ ⦃str : StrLib⦄ (fd : ℕ) (live : ℕ → Bool) where
  uninvited-ok :
      (key : Bytes) (c : Channel)
      → ChannelOk live key c
      → is_member fd (remove_invite fd c) ≡ false
      → ChannelOk (without fd live) key (remove_invite fd c)
  unfolding remove_invite is_member
  uninvited-ok key c ok e = record {
    named = ok.named;
    populated = ok.populated;
    members_live = λ g m. ground (arith, ok.members_live g m);
    operators_in = ok.operators_in;
    invites_live = λ g m. ground (arith, contains-exclude g fd c.invite_list, ok.invites_live g);
  }

  gone-ok :
      (key : Bytes) (c : Channel)
      → ChannelOk live key c
      → is_empty (remove_member fd (remove_invite fd c)) ≡ false
      → ChannelOk (without fd live) key (remove_member fd (remove_invite fd c))
  unfolding remove_member remove_invite is_empty
  gone-ok key c ok e = record {
    named = ok.named;
    populated = e;
    members_live = λ g m. ground (arith, contains-exclude g fd c.members, ok.members_live g);
    operators_in = λ g m. ground (
      arith,
      contains-exclude g fd c.members,
      contains-exclude g fd c.operators,
      ok.operators_in g,
    );
    invites_live = λ g m. ground (arith, contains-exclude g fd c.invite_list, ok.invites_live g);
  }

  -- The purged table is well-formed for the clients that are left.
  pub purge-TableOk :
      (m : Map Bytes Channel) → TableOk live m → TableOk (without fd live) (purge fd m)
  unfolding purge
  purge-TableOk [] t = tt
  purge-TableOk ((key, c) ∷ m) t =
      if_ind (TableOk (without fd live)) (is_member fd (remove_invite fd c))
        (λ _.
          if_ind (TableOk (without fd live)) (is_empty (remove_member fd (remove_invite fd c)))
            (λ _. purge-TableOk m t.1) (λ e. (gone-ok key c t.0 e, purge-TableOk m t.1)))
        (λ e. (uninvited-ok key c t.0 e, purge-TableOk m t.1))

  pub TableOk-mono :
      (live' : ℕ → Bool) (m : Map Bytes Channel)
      → ((g : ℕ) → live g ≡ true → live' g ≡ true)
      → TableOk live m
      → TableOk live' m
  TableOk-mono live' m h = Each-mono (ChannelOk live) (ChannelOk live') m λ key c ok. record {
    named = ok.named;
    populated = ok.populated;
    members_live = λ g e. h g (ok.members_live g e);
    operators_in = ok.operators_in;
    invites_live = λ g e. h g (ok.invites_live g e);
  }
