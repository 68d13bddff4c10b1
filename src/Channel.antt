-- ===== src/Channel.antt =====
-- include/Channel.hpp and src/Channel.cpp. A Client* is the descriptor of its client: the map
-- `_members` keeps its keys here, and what is read through its pointers is an argument.
pub mod Names
use ft_irc.Prelude.{
  Bytes, text, nat_key, bytes_key, contains, include, exclude, ℕ, ◌+◌, Bool, true, false, not, List,
  [], ◌++◌, ltb, if◌then◌else◌, is_nil,
}
use ft_irc.Libcpp.{StrLib}

pub record Channel : Type 0 where
  pub name : Bytes
  pub topic : Bytes
  pub topic_setter : Bytes
  pub topic_time : ℕ
  pub creation_time : ℕ
  pub key : Bytes
  pub user_limit : ℕ
  pub invite_only : Bool
  pub topic_restricted : Bool
  pub members : List ℕ
  pub operators : List ℕ
  pub invite_list : List ℕ

unfoldable pub add_member : ℕ → Channel → Channel
add_member fd c = record c { members = include fd c.members }

unfoldable pub remove_member : ℕ → Channel → Channel
remove_member fd c = record c { members = exclude fd c.members; operators = exclude fd c.operators }

unfoldable pub is_member : ℕ → Channel → Bool
is_member fd c = contains fd c.members

unfoldable pub is_empty : Channel → Bool
is_empty c = is_nil c.members

unfoldable pub is_operator : ℕ → Channel → Bool
is_operator fd c = contains fd c.operators

unfoldable pub set_operator : ℕ → Bool → Channel → Channel
set_operator fd op c = record c {
  operators = if op then include fd c.operators else exclude fd c.operators;
}

unfoldable pub add_invite : ℕ → Channel → Channel
add_invite fd c = record c { invite_list = include fd c.invite_list }

unfoldable pub is_invited : ℕ → Channel → Bool
is_invited fd c = contains fd c.invite_list

unfoldable pub remove_invite : ℕ → Channel → Channel
remove_invite fd c = record c { invite_list = exclude fd c.invite_list }

unfoldable pub set_topic : Bytes → Bytes → ℕ → Channel → Channel
set_topic topic setter now c = record c { topic = topic; topic_setter = setter; topic_time = now }

-- Channel::Channel: the creator is the first member and an operator.
unfoldable pub new_channel : Bytes → ℕ → ℕ → Channel
new_channel name creator now = set_operator creator true (
    add_member creator (record {
      name = name;
      topic = [];
      topic_setter = [];
      topic_time = 0;
      creation_time = now;
      key = [];
      user_limit = 0;
      invite_only = false;
      topic_restricted = false;
      members = [];
      operators = [];
      invite_list = [];
    }))

-- The early return for "+" gives the same text.
unfoldable pub mode_string : Channel → Bytes
mode_string c =
    text "+"
    ++ (if c.invite_only then text "i" else [])
    ++ (if c.topic_restricted then text "t" else [])
    ++ (if not (is_nil c.key) then text "k" else [])
    ++ (if ltb 0 c.user_limit then text "l" else [])

module _ ⦃str : StrLib⦄ where
  unfoldable pub mode_params : Channel → Bytes
  mode_params c =
      let params = if not (is_nil c.key) then c.key else [] in
      if ltb 0 c.user_limit
      then (params ++ (if not (is_nil params) then text " " else [])) ++ str.to_string c.user_limit
      else params
