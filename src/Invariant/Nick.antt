-- ===== src/Invariant/Nick.antt =====
-- src/CommandRegistration.cpp: NICK and USER keep the invariant.
use ft_irc.Lifecycle.{broadcast_to_channels}
use ft_irc.Server.Store.{blank, profiles, who, set_profile, nick_taken, is_nick_in_use, queue_to}
use ft_irc.Server.{Server}
use ft_irc.Message.{matched, param, Message}
use ft_irc.Client.{new_profile, prefix, Profile}
use ft_irc.Validation.{nick_byte, is_valid_nickname, is_valid_username, cut}
use ft_irc.Libcpp.{StrLib, StrLaws, SocketLib}
use ft_irc.Limits.{max_nicklen, max_userlen}
use ft_irc.Prelude.{
  Bytes, text, nat_key, bytes_key, lookup, ℕ, zero, suc, ◌≤◌, ◌≡◌, refl, ap, ◌∙◌, ◌⊎◌, inl, inr,
  Bool, true, false, not, ◌&&◌, ◌||◌, none, some, [], ◌∷◌, ◌++◌, arith, ltb, ◌==◌, if_ind, ||_false,
  length, take, is_nil, length-take, all,
}
use ft_irc.Server.Quiet.{Quiet-trans, queue_to-Quiet, send_reply-Quiet, Quiet}
use ft_irc.Membership.Lifecycle.{is_live-adjust}
use ft_irc.Commands.Registration.{
  set_nickname, set_nick_set, field_or_param, reserved_by_any, take_user, take_nick, cmd_nick,
  cmd_user,
}
use ft_irc.Invariant.{ProfileOk, Inv}
use ft_irc.Invariant.Edits.{Quiet-Inv, set_profile-Inv}
use ft_irc.Invariant.Lifecycle.{who-cases, broadcast_to_channels-Quiet}
use ft_irc.Invariant.Registration.{
  set_profile-set_profile, who-set_profile, Plain-Inv, rename-UniqueNicks,
}
use ft_irc.Invariant.Register.{take_user-Plain, user_set-take_user, complete_registration-Inv}

all-take : (p : ℕ → Bool) (n : ℕ) (s : Bytes) → all p s ≡ true → all p (take n s) ≡ true
all-take p zero s h = refl
all-take p (suc n) [] h = refl
all-take p (suc n) (c ∷ cs) h = ground (arith, all-take p n cs)

-- A valid nickname stays valid when it is cut to length.
pub cut-is_valid_nickname :
    (nick : Bytes) → is_valid_nickname nick ≡ true → is_valid_nickname (cut max_nicklen nick) ≡ true
unfolding cut is_valid_nickname
cut-is_valid_nickname [] h = cc
cut-is_valid_nickname (c ∷ cs) h = ground (arith, all-take nick_byte 8 cs)

pub length-cut : (n : ℕ) (s : Bytes) → length (cut n s) ≤ n
unfolding cut
length-cut n s = ground (arith, length-take n s)

-- A new nickname that passed the tests of cmdNick.
module _ {Io : Type 0} ⦃str : StrLib⦄ ⦃sock : SocketLib Io⦄ (laws : StrLaws str) (fd : ℕ)
    (nick : Bytes) (s : Server Io) (valid : is_valid_nickname nick ≡ true)
    (short : length nick ≤ max_nicklen) (free : nick_taken nick fd (profiles s) ≡ false)
    (v : Inv s) where
  named-ok :
      (p : Profile) (f : Profile → Profile)
      → (f p ≡ set_nickname nick p) ⊎ (f p ≡ set_nick_set (set_nickname nick p))
      → ProfileOk s.password p
      → ProfileOk s.password (f p)
  unfolding set_nickname set_nick_set
  named-ok p f (inl e) ok = rw e (record {
    closing = ok.closing;
    passed = ok.passed;
    authenticated = ok.authenticated;
    has_nick = ok.has_nick;
    has_user = ok.has_user;
    nick_valid = λ _. valid;
    nick_short = λ _. short;
  })
  named-ok p f (inr e) ok = rw e (record {
    closing = ok.closing;
    passed = ok.passed;
    authenticated = ok.authenticated;
    has_nick = λ _. refl;
    has_user = ok.has_user;
    nick_valid = λ _. valid;
    nick_short = λ _. short;
  })

  set_nickname-Inv : Inv (set_profile fd (set_nickname nick) s)
  unfolding set_nickname
  set_nickname-Inv =
      set_profile-Inv fd (set_nickname nick) s (λ p _. named-ok p (set_nickname nick) (inl refl))
        (λ g e. is_live-adjust fd (set_nickname nick) g (profiles s) (λ p. (refl, refl)) ∙ e)
        (rename-UniqueNicks laws fd nick (set_nickname nick) (profiles s) (λ p. refl) (λ p. refl)
          free v.unique)
        v

  first_nick-Inv : Inv (set_profile fd set_nick_set (set_profile fd (set_nickname nick) s))
  unfolding set_nickname set_nick_set
  first_nick-Inv = rw (set_profile-set_profile fd (set_nickname nick) set_nick_set s) (
      set_profile-Inv fd (λ p. set_nick_set (set_nickname nick p)) s
        (λ p _. named-ok p (λ p. set_nick_set (set_nickname nick p)) (inr refl))
        (λ g e.
          is_live-adjust fd (λ p. set_nick_set (set_nickname nick p)) g (profiles s)
            (λ p. (refl, refl))
          ∙ e)
        (rename-UniqueNicks laws fd nick (λ p. set_nick_set (set_nickname nick p)) (profiles s)
          (λ p. refl) (λ p. refl) free v.unique)
        v)

module _ {Io : Type 0} ⦃str : StrLib⦄ ⦃sock : SocketLib Io⦄ (laws : StrLaws str) (fd : ℕ) where
  take_nick-Inv :
      (nick : Bytes) (s : Server Io)
      → is_valid_nickname nick ≡ true
      → length nick ≤ max_nicklen
      → nick_taken nick fd (profiles s) ≡ false
      → Inv s
      → Inv (take_nick fd nick s)
  unfolding take_nick set_nickname set_nick_set blank new_profile
  take_nick-Inv nick s valid short free v =
      let f = λ (p : Profile). set_nick_set (set_nickname nick p) in
      let named = set_profile fd set_nick_set (set_profile fd (set_nickname nick) s) in
      let first = first_nick-Inv laws fd nick s valid short free v in
      let change = text ":" ++ prefix (who s fd) ++ text " NICK :" ++ nick in
      let told = broadcast_to_channels fd change (queue_to fd change s) in
      let q : Quiet s told =
        Quiet-trans (queue_to-Quiet fd change s) (broadcast_to_channels-Quiet fd change _) in
      let seen : lookup fd (profiles s) ≡ some (who s fd) → who named fd ≡ f (who s fd) = λ e.
        ap (λ (t : Server Io). who t fd)
          (set_profile-set_profile fd (set_nickname nick) set_nick_set s)
        ∙ who-set_profile s fd f e in
      if_ind Inv (who s fd).registered
        (λ _.
          set_nickname-Inv laws fd nick told valid short
            (ap (nick_taken nick fd) q.same_profiles ∙ free) (Quiet-Inv q v))
        λ _.
          if_ind Inv (who s fd).user_set
            (λ known. elim (who-cases s fd) [
              | inl e ↦
                  complete_registration-Inv fd named (ap (λ (p : Profile). p.nick_set) (seen e))
                    (ap (λ (p : Profile). p.user_set) (seen e) ∙ known) first
              | inr e ↦ cc (ap (λ (p : Profile). p.user_set) e.1)
            ])
            (λ _. first)

  pub cmd_nick-Inv : (msg : Message) (s : Server Io) → Inv s → Inv (cmd_nick fd msg s)
  unfolding cmd_nick is_nick_in_use
  cmd_nick-Inv msg s v =
      let wanted = field_or_param msg (text "newnick") 0 in
      let nick = cut max_nicklen wanted in
      if_ind Inv (is_nil msg.params) (λ _. Quiet-Inv (send_reply-Quiet fd _ _ s) v)
        λ _.
          if_ind Inv (not (is_valid_nickname wanted)) (λ _. Quiet-Inv (send_reply-Quiet fd _ _ s) v)
            λ valid.
              if_ind Inv (nick_taken nick fd (profiles s) || reserved_by_any nick s.extensions)
                (λ _. Quiet-Inv (send_reply-Quiet fd _ _ s) v)
                λ free.
                  take_nick-Inv nick s (cut-is_valid_nickname wanted (ground arith))
                    (length-cut max_nicklen wanted) (||_false _ _ free).0 v

  pub cmd_user-Inv : (msg : Message) (s : Server Io) → Inv s → Inv (cmd_user fd msg s)
  unfolding cmd_user blank new_profile
  cmd_user-Inv msg s v =
      let username = cut max_userlen (field_or_param msg (text "username") 0) in
      let realname = field_or_param msg (text "realname") 3 in
      let f = take_user username (param msg 1) realname in
      let plain = take_user-Plain username (param msg 1) realname in
      let filled = Plain-Inv fd f s plain v in
      if_ind Inv (who s fd).registered (λ _. Quiet-Inv (send_reply-Quiet fd _ _ s) v)
        λ _.
          if_ind Inv (ltb (length msg.params) 4) (λ _. Quiet-Inv (send_reply-Quiet fd _ _ s) v)
            λ _.
              if_ind Inv
                (not (matched msg)
                  && not (elim msg.trailing_index [ none ↦ false | some i ↦ i == 3 ]))
                (λ _. Quiet-Inv (send_reply-Quiet fd _ _ s) v)
                λ _.
                  if_ind Inv (not (is_valid_username username))
                    (λ _. Quiet-Inv (send_reply-Quiet fd _ _ s) v)
                    λ _.
                      if_ind Inv (who s fd).nick_set
                        (λ named. elim (who-cases s fd) [
                          | inl e ↦
                              let w = who-set_profile s fd f e in
                              complete_registration-Inv fd (set_profile fd f s)
                                (ap (λ (p : Profile). p.nick_set) w
                                  ∙ plain.nick_set_kept (who s fd)
                                  ∙ named)
                                (ap (λ (p : Profile). p.user_set) w
                                  ∙ user_set-take_user _ _ _ (who s fd))
                                filled
                          | inr e ↦ cc (ap (λ (p : Profile). p.nick_set) e.1)
                        ])
                        (λ _. filled)
