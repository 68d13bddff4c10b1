-- ===== src/Invariant/Edits.antt =====
-- The invariant across the operations that the handlers are made of.
use ft_irc.Server.Store.{profiles, adjust_client, set_who, set_profile}
use ft_irc.Server.{Server}
use ft_irc.Client.{Profile}
use ft_irc.Libcpp.{StrLib}
use ft_irc.Prelude.{
  Bytes, Map, nat_key, bytes_key, lookup, adjust, ℕ, ◌≡◌, refl, sym, ap, subst, ◌∙◌, inl, inr, true,
  some, arith, ◌==◌, ==_iff, Bool-cases,
}
use ft_irc.Prelude.Maps.Laws.{adjust-Distinct, adjust-inv}
use ft_irc.Server.Quiet.{profiles_of-adjust, Quiet}
use ft_irc.Membership.{is_live}
use ft_irc.Membership.Tame.{Quiet-Tame, Tame}
use ft_irc.Membership.Lifecycle.{TableOk-mono}
use ft_irc.Invariant.{holds_nick, PeopleOk, UniqueNicks, ProfileOk, Inv}

module _ {Io : Type 0} ⦃str : StrLib⦄ where
  pub Tame-Inv : {s t : Server Io} → Tame s t → Inv s → Inv t
  Tame-Inv {s} {t} q v = record {
    distinct = rw q.profiles_kept v.distinct;
    table = rw q.profiles_kept (q.table_kept (is_live (profiles s)) refl v.table);
    people = rw (q.profiles_kept, q.password_kept) v.people;
    unique = rw q.profiles_kept v.unique;
  }

  pub Quiet-Inv : {s t : Server Io} → Quiet s t → Inv s → Inv t
  Quiet-Inv q v = Tame-Inv (Quiet-Tame q) v

module _ {Io : Type 0} where
  pub profiles-set_profile :
      (fd : ℕ) (f : Profile → Profile) (s : Server Io)
      → profiles (set_profile fd f s) ≡ adjust fd f (profiles s)
  unfolding set_profile adjust_client
  profiles-set_profile fd f s = profiles_of-adjust fd (set_who f) f s.clients (λ c. refl)

  pub password-set_profile :
      (fd : ℕ) (f : Profile → Profile) (s : Server Io) → (set_profile fd f s).password ≡ s.password
  unfolding set_profile adjust_client
  password-set_profile fd f s = refl

-- A setter of one client.
module _ ⦃str : StrLib⦄ (fd : ℕ) (f : Profile → Profile) where
  pub adjust-PeopleOk :
      (password : Bytes) (ps : Map ℕ Profile)
      → ((p : Profile) → lookup fd ps ≡ some p → ProfileOk password p → ProfileOk password (f p))
      → PeopleOk password ps
      → PeopleOk password (adjust fd f ps)
  adjust-PeopleOk password ps h v g q e =
      let (p, there, same) = adjust-inv g fd f ps e in
      elim (Bool-cases (fd == g)) [
        | inl eq ↦
            subst (ProfileOk password) (sym (rw eq at same))
              (h p (ap (λ k. lookup k ps) ((==_iff fd g).0 eq) ∙ there) (v g p there))
        | inr ne ↦ subst (ProfileOk password) (sym (rw ne at same)) (v g p there)
      ]

  -- The nicknames stay distinct if the setter keeps the nickname and takes none.
  pub adjust-UniqueNicks :
      (ps : Map ℕ Profile)
      → ((p : Profile) → (f p).nickname ≡ p.nickname)
      → ((p : Profile) → holds_nick (f p) ≡ true → holds_nick p ≡ true)
      → UniqueNicks ps
      → UniqueNicks (adjust fd f ps)
  adjust-UniqueNicks ps names holds u a b p q ea eb ne hp hq =
      let (p', there, same) = adjust-inv a fd f ps ea in
      let (q', there', same') = adjust-inv b fd f ps eb in
      ground (arith, u a b p' q' there there' ne, names p', names q', holds p', holds q')

module _ {Io : Type 0} ⦃str : StrLib⦄ (fd : ℕ) (f : Profile → Profile) where
  pub set_profile-Inv :
      (s : Server Io)
      → ((p : Profile)
          → lookup fd (profiles s) ≡ some p
          → ProfileOk s.password p
          → ProfileOk s.password (f p))
      → ((g : ℕ) → is_live (profiles s) g ≡ true → is_live (adjust fd f (profiles s)) g ≡ true)
      → UniqueNicks (adjust fd f (profiles s))
      → Inv s
      → Inv (set_profile fd f s)
  unfolding set_profile adjust_client
  set_profile-Inv s person lives unique v = record {
    distinct = rw (profiles-set_profile fd f s) (adjust-Distinct fd f (profiles s) v.distinct);
    table = rw (profiles-set_profile fd f s) (
        TableOk-mono fd (is_live (profiles s)) (is_live (adjust fd f (profiles s))) s.channels lives
          v.table);
    people =
        rw (profiles-set_profile fd f s)
          (adjust-PeopleOk fd f s.password (profiles s) person v.people);
    unique = rw (profiles-set_profile fd f s) unique;
  }
