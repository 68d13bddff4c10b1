-- ===== src/Commands/UserModes.antt =====
-- src/CommandOperator.cpp: `handleUserMode`.
use ft_irc.Prelude.{
  Bytes, text, ℕ, Bool, true, false, not, List, [], ◌∷◌, ◌++◌, ◌==◌, if◌then◌else◌, length, is_nil,
}
use ft_irc.Libcpp.{StrLib, SocketLib}
use ft_irc.Client.{user_mode_string, prefix, Profile}
use ft_irc.Message.{param, Message}
use ft_irc.Server.{Server}
use ft_irc.Server.Store.{who, set_profile, send_reply, queue_lines}
use ft_irc.Commands.ModeLines.{render_mode_lines, already_reported, starts_with_sign, ModeChange}

pub record UserWalk (Io : Type 0) : Type 0 where
  pub adding : Bool
  pub applied : List ModeChange
  pub reported : List Bytes
  pub server : Server Io

unfoldable pub set_invisible : Bool → Profile → Profile
set_invisible on p = record p { invisible = on }

unfoldable pub set_wallops : Bool → Profile → Profile
set_wallops on p = record p { wallops = on }

module _ {Io : Type 0} ⦃sock : SocketLib Io⦄ where
  unfoldable pub apply_user_mode : ℕ → ℕ → (Profile → Profile) → UserWalk Io → UserWalk Io
  apply_user_mode fd c edit w = record w {
    server = set_profile fd edit w.server;
    applied = w.applied ++ record { adding = w.adding; letter = c; arg = [] } ∷ [];
  }

  unfoldable pub user_mode_letter : ℕ → ℕ → UserWalk Io → UserWalk Io
  user_mode_letter fd c w =
      let what = text "501:" ++ c ∷ [] in
      if c == b'+'
      then record w { adding = true }
      else (if c == b'-'
          then record w { adding = false }
          else (if c == b'i'
              then apply_user_mode fd b'i' (set_invisible w.adding) w
              else (if c == b'w'
                  then apply_user_mode fd b'w' (set_wallops w.adding) w
                  else (if already_reported w.reported what then w else record w {
                    reported = w.reported ++ what ∷ [];
                    server =
                        send_reply fd (text "501") (c ∷ text " :is unknown mode char to me")
                          w.server;
                  }))))

  unfoldable pub user_mode_loop : ℕ → Bytes → UserWalk Io → UserWalk Io
  user_mode_loop fd [] w = w
  user_mode_loop fd (c ∷ cs) w = user_mode_loop fd cs (user_mode_letter fd c w)

  unfoldable pub finish_user_modes : ℕ → UserWalk Io → Server Io
  finish_user_modes fd w =
      let head =
        text ":"
        ++ prefix (who w.server fd)
        ++ text " MODE "
        ++ (who w.server fd).nickname
        ++ text " " in
      if is_nil w.applied
      then w.server
      else queue_lines fd (render_mode_lines head w.applied) w.server

module _ {Io : Type 0} ⦃str : StrLib⦄ ⦃sock : SocketLib Io⦄ where
  unfoldable pub handle_user_mode : ℕ → Message → Server Io → Server Io
  handle_user_mode fd msg s =
      if not (str.eq_ascii_nocase (param msg 0) (who s fd).nickname)
      then send_reply fd (text "502") (text ":Can't change mode for other users") s
      else (if length msg.params == 1
          then send_reply fd (text "221") (user_mode_string (who s fd)) s
          else (if not (starts_with_sign (param msg 1))
              then s
              else finish_user_modes fd (
                  user_mode_loop fd (param msg 1)
                    (record { adding = true; applied = []; reported = []; server = s }))))
