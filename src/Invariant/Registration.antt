-- ===== src/Invariant/Registration.antt =====
-- src/CommandRegistration.cpp: PASS, NICK and USER keep the invariant.
use ft_irc.Server.Store.{blank, profiles, who, adjust_client, set_who, set_profile, nick_taken}
use ft_irc.Server.{Server}
use ft_irc.Client.{Profile, Client}
use ft_irc.Libcpp.{StrLib, StrLaws}
use ft_irc.Prelude.{
  Bytes, Map, nat_key, bytes_key, lookup, adjust, ℕ, ◌≡◌, refl, sym, ap, ◌∙◌, ◌≢◌, inl, inr, true,
  false, none, some, [], ◌∷◌, arith, ==_self, Bool-cases,
}
use ft_irc.Prelude.Maps.Laws.{lookup-adjust, adjust-inv}
use ft_irc.Membership.Lifecycle.{is_live-adjust}
use ft_irc.Invariant.{UniqueNicks, Inv}
use ft_irc.Invariant.Edits.{profiles-set_profile, adjust-UniqueNicks, set_profile-Inv}

module _ {V : Type 0} where
  adjust-adjust :
      (k : ℕ) (f g : V → V) (m : Map ℕ V) → adjust k g (adjust k f m) ≡ adjust k (λ v. g (f v)) m
  unfolding adjust
  adjust-adjust k f g [] = refl
  adjust-adjust k f g ((j, v) ∷ m) = ground (arith, adjust-adjust k f g m)

module _ {Io : Type 0} where
  pub set_profile-set_profile :
      (fd : ℕ) (f g : Profile → Profile) (s : Server Io)
      → set_profile fd g (set_profile fd f s) ≡ set_profile fd (λ p. g (f p)) s
  unfolding set_profile adjust_client
  set_profile-set_profile fd f g s =
      ap (λ (m : Map ℕ (Client Io)). record s { clients = m })
        (adjust-adjust fd (set_who f) (set_who g) s.clients)

  pub who-lookup :
      (s : Server Io) (fd : ℕ) {p : Profile} → lookup fd (profiles s) ≡ some p → who s fd ≡ p
  unfolding who
  who-lookup s fd e = rw (e, who)

  pub who-set_profile :
      (s : Server Io) (fd : ℕ) (f : Profile → Profile)
      → lookup fd (profiles s) ≡ some (who s fd)
      → who (set_profile fd f s) fd ≡ f (who s fd)
  who-set_profile s fd f e = who-lookup (set_profile fd f s) fd (
      ap (lookup fd) (profiles-set_profile fd f s)
      ∙ ground (arith, lookup-adjust fd fd f (profiles s), ==_self fd))

  pub who-set_profile-none :
      (s : Server Io) (fd : ℕ) (f : Profile → Profile)
      → lookup fd (profiles s) ≡ none
      → who (set_profile fd f s) fd ≡ blank
  unfolding who
  who-set_profile-none s fd f e =
      let gone : lookup fd (profiles (set_profile fd f s)) ≡ none =
        ap (lookup fd) (profiles-set_profile fd f s)
        ∙ ground (arith, lookup-adjust fd fd f (profiles s)) in
      rw (gone, who)

-- A setter that touches nothing that the invariant reads.
pub record Plain (f : Profile → Profile) : Type 0 where
  pub nickname_kept : (p : Profile) → (f p).nickname ≡ p.nickname
  pub password_kept : (p : Profile) → (f p).password ≡ p.password
  pub registered_kept : (p : Profile) → (f p).registered ≡ p.registered
  pub pass_sent_kept : (p : Profile) → (f p).pass_sent ≡ p.pass_sent
  pub nick_set_kept : (p : Profile) → (f p).nick_set ≡ p.nick_set
  pub user_set_kept : (p : Profile) → p.user_set ≡ true → (f p).user_set ≡ true
  pub pending_close_kept : (p : Profile) → (f p).pending_close ≡ p.pending_close
  pub tearing_down_kept : (p : Profile) → (f p).tearing_down ≡ p.tearing_down

module _ {Io : Type 0} ⦃str : StrLib⦄ where
  pub Plain-Inv :
      (fd : ℕ) (f : Profile → Profile) (s : Server Io) → Plain f → Inv s → Inv (set_profile fd f s)
  Plain-Inv fd f s k v =
      set_profile-Inv fd f s
        (λ p _ ok. record {
          closing = rw (k.pending_close_kept p, k.tearing_down_kept p) ok.closing;
          passed = rw (k.registered_kept p, k.pass_sent_kept p) ok.passed;
          authenticated = rw (k.registered_kept p, k.password_kept p) ok.authenticated;
          has_nick = rw (k.registered_kept p, k.nick_set_kept p) ok.has_nick;
          has_user = rw (k.registered_kept p) (λ r. k.user_set_kept p (ok.has_user r));
          nick_valid = rw (k.nick_set_kept p, k.nickname_kept p) ok.nick_valid;
          nick_short = rw (k.nick_set_kept p, k.nickname_kept p) ok.nick_short;
        })
        (λ g e.
          is_live-adjust fd f g (profiles s) (λ p. (k.registered_kept p, k.tearing_down_kept p))
          ∙ e)
        (adjust-UniqueNicks fd f (profiles s) k.nickname_kept
          (λ p h. rw (k.nick_set_kept p, k.tearing_down_kept p) at h) v.unique)
        v

module _ ⦃str : StrLib⦄ where
  -- Whom isNickInUse does not report has another nickname.
  nick_taken-free :
      (nick : Bytes) (fd : ℕ) (m : Map ℕ Profile) (g : ℕ) (p : Profile)
      → nick_taken nick fd m ≡ false
      → lookup g m ≡ some p
      → fd ≢ g
      → p.tearing_down ≡ false
      → str.eq_ascii_nocase p.nickname nick ≡ false
  unfolding nick_taken lookup
  nick_taken-free nick fd [] g p h e ne up = cc
  nick_taken-free nick fd ((j, q) ∷ m) g p h e ne up = ground (arith, nick_taken-free nick fd m g p)

  eq_nocase_sym :
      StrLaws str
      → (a b : Bytes) → str.eq_ascii_nocase a b ≡ false
      → str.eq_ascii_nocase b a ≡ false
  eq_nocase_sym laws a b e = elim (Bool-cases (str.eq_ascii_nocase b a)) [
    | inl h ↦ cc ((laws.nocase_iff a b).1 (sym ((laws.nocase_iff b a).0 h)))
    | inr h ↦ h
  ]

  -- A client that takes a free nickname.
  pub rename-UniqueNicks :
      StrLaws str
      → (fd : ℕ) (nick : Bytes) (f : Profile → Profile) (ps : Map ℕ Profile)
      → ((p : Profile) → (f p).nickname ≡ nick)
      → ((p : Profile) → (f p).tearing_down ≡ p.tearing_down)
      → nick_taken nick fd ps ≡ false
      → UniqueNicks ps
      → UniqueNicks (adjust fd f ps)
  rename-UniqueNicks laws fd nick f ps named holds free u a b p q ea eb ne hp hq =
      let (p', there, same) = adjust-inv a fd f ps ea in
      let (q', there', same') = adjust-inv b fd f ps eb in
      ground (
        arith,
        u a b p' q' there there' ne,
        nick_taken-free nick fd ps a p' free there,
        nick_taken-free nick fd ps b q' free there',
        eq_nocase_sym laws q'.nickname nick,
        named p',
        named q',
        holds p',
        holds q',
      )
