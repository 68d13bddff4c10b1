-- ===== src/Membership/Forgotten.antt =====
-- src/Server.cpp: what is left of a client that is not registered, or is being torn down.
use ft_irc.Prelude.{
  Bytes, Map, nat_key, bytes_key, contains, exclude, ℕ, ◌≡◌, refl, sym, ◌∙◌, inl, inr, Bool, true,
  false, List, [], ◌∷◌, arith, Bool-cases,
}
use ft_irc.Prelude.Maps.Laws.{Each, Each-mono}
use ft_irc.Libcpp.{StrLib}
use ft_irc.Channel.{is_member, remove_invite, Channel}
use ft_irc.Lifecycle.{purge}
use ft_irc.Membership.{TableOk, ChannelOk}

-- A channel knows nothing of a client.
pub record Forgets (fd : ℕ) (c : Channel) : Type 0 where
  pub no_member : contains fd c.members ≡ false
  pub no_operator : contains fd c.operators ≡ false
  pub no_invite : contains fd c.invite_list ≡ false

abbrev pub AllForget : ℕ → Map Bytes Channel → Type 0
AllForget fd = Each (λ key c. Forgets fd c)

contains-false :
    (fd : ℕ) (s : List ℕ) → (contains fd s ≡ true → true ≡ false) → contains fd s ≡ false
contains-false fd s h = elim (Bool-cases (contains fd s)) [ inl e ↦ e ∙ h e | inr e ↦ e ]

module _ ⦃str : StrLib⦄ (fd : ℕ) (live : ℕ → Bool) (dead : live fd ≡ false) where
  ChannelOk-Forgets : (key : Bytes) (c : Channel) → ChannelOk live key c → Forgets fd c
  ChannelOk-Forgets key c ok = record {
    no_member = contains-false fd c.members (λ e. sym (ok.members_live fd e) ∙ dead);
    no_operator =
        contains-false fd c.operators (λ e. sym (ok.members_live fd (ok.operators_in fd e)) ∙ dead);
    no_invite = contains-false fd c.invite_list (λ e. sym (ok.invites_live fd e) ∙ dead);
  }

  -- In a well-formed table, a client that is not live stands nowhere.
  pub TableOk-AllForget : (m : Map Bytes Channel) → TableOk live m → AllForget fd m
  TableOk-AllForget m = Each-mono (ChannelOk live) (λ key c. Forgets fd c) m ChannelOk-Forgets

module _ (fd : ℕ) where
  exclude-absent : (s : List ℕ) → contains fd s ≡ false → exclude fd s ≡ s
  unfolding exclude contains
  exclude-absent [] e = refl
  exclude-absent (j ∷ s) e = ground (arith, exclude-absent s)

  -- The purge of a table that does not know the client changes nothing.
  pub purge-AllForget : (m : Map Bytes Channel) → AllForget fd m → purge fd m ≡ m
  unfolding purge remove_invite is_member
  purge-AllForget [] h = refl
  purge-AllForget ((key, c) ∷ m) h =
      let same = exclude-absent c.invite_list h.0.no_invite in
      ground (arith, same, h.0.no_member, purge-AllForget m h.1)
