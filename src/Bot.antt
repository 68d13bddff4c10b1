-- ===== src/Bot.antt =====
-- include/Bot.hpp and src/Bot.cpp: the extension that answers private messages to `ircbot`. Its
-- state is the number of the next joke.
pub mod Quiet
use ft_irc.Prelude.{
  Bytes, text, bytes_eq, ℕ, ◌+◌, ◌%◌, Bool, not, ◌&&◌, ◌||◌, none, some, List, [], ◌∷◌, ◌++◌, leb,
  ◌==◌, if◌then◌else◌, length, get_or, is_nil,
}
use ft_irc.Limits.{server_name, server_version}
use ft_irc.Libcpp.{StrLib, SocketLib}
use ft_irc.Channel.{mode_string, Channel}
use ft_irc.Server.{Server}
use ft_irc.Server.Store.{who, queue_to}
use ft_irc.Server.Channels.{find_channel}

unfoldable pub bot_nickname : Bytes
bot_nickname = text "ircbot"

unfoldable pub jokes : List Bytes
jokes =
    text "Why do programmers prefer dark mode? Because light attracts bugs."
    ∷ text
        "There are only 10 types of people in the world: those who understand binary and those who don't."
    ∷ text "A SQL query walks into a bar, sees two tables and asks: 'Can I JOIN you?'"
    ∷ text "Why do Java programmers wear glasses? Because they don't C#."
    ∷ (text "!false " ++ (0xe2 ∷ 0x80 ∷ 0x94 ∷ []) ++ text " It's funny because it's true.")
    ∷ text
        "How many programmers does it take to change a light bulb? None, that's a hardware problem."
    ∷ text
        "An IRC user walks into a bar. The bartender says: 'What'll it be?' The user says: '/quit'."
    ∷ text "Knock knock. Who's there? Recursion. Recursion who? Knock knock."
    ∷ []

abbrev joke_count : ℕ
joke_count = 8

-- isspace
abbrev is_space : ℕ → Bool
is_space c = c == 32 || (leb 9 c && leb c 13)

unfoldable pub skip_spaces : Bytes → Bytes
skip_spaces [] = []
skip_spaces (c ∷ cs) = if is_space c then skip_spaces cs else c ∷ cs

-- `iss >> cmd`: the word, and what is left of the stream.
unfoldable pub take_word : Bytes → Bytes × Bytes
take_word [] = ([], [])
take_word (c ∷ cs) =
    let rest = take_word cs in if is_space c then ([], c ∷ cs) else (c ∷ rest.0, rest.1)

-- std::getline
unfoldable pub take_line : Bytes → Bytes
take_line [] = []
take_line (c ∷ cs) = if c == 10 then [] else c ∷ take_line cs

module _ {Io : Type 0} ⦃str : StrLib⦄ ⦃sock : SocketLib Io⦄ where
  unfoldable pub bot_reply : ℕ → Bytes → Server Io → Server Io
  bot_reply sender msg s =
      queue_to sender
        (text ":"
          ++ bot_nickname
          ++ text " PRIVMSG "
          ++ (who s sender).nickname
          ++ text " :"
          ++ msg)
        s

  unfoldable pub bot_help : ℕ → Server Io → Server Io
  bot_help sender s = bot_reply sender (text "  !joke           - Tell a random joke") (
      bot_reply sender (text "  !info [#chan]    - Show server or channel info") (
        bot_reply sender (text "  !time           - Show current server time") (
          bot_reply sender (text "  !help           - Show this help message")
            (bot_reply sender (text "Available commands:") s))))

  unfoldable pub bot_time : ℕ → Server Io → Server Io
  bot_time sender s = bot_reply sender (text "Server time: " ++ str.format_time s.clock) s

  unfoldable pub bot_channel_info : ℕ → Bytes → Channel → Server Io → Server Io
  bot_channel_info sender name chan s =
      let told =
        bot_reply sender
          (text "Channel "
            ++ name
            ++ text ": "
            ++ str.to_string (length chan.members)
            ++ text " users, modes: "
            ++ mode_string chan)
          s in
      if is_nil chan.topic then told else bot_reply sender (text "Topic: " ++ chan.topic) told

  unfoldable pub bot_info : ℕ → Bytes → Server Io → Server Io
  bot_info sender name s =
      if is_nil name || not (get_or name 0 0 == b'#')
      then bot_reply sender (text "Server: " ++ server_name ++ text " v" ++ server_version) s
      else elim (find_channel s name) [
        | none ↦ bot_reply sender (text "Channel " ++ name ++ text " does not exist.") s
        | some chan ↦ bot_channel_info sender name chan s
      ]

  -- Bot::handleMessage, with the number of the next joke.
  unfoldable pub bot_message : ℕ → ℕ → Bytes → Server Io → ℕ × Server Io
  bot_message next sender msg s =
      let (cmd, rest) = take_word (skip_spaces msg) in
      let arg = take_line (skip_spaces rest) in
      if is_nil msg
      then (next, s)
      else (if bytes_eq cmd (text "!help")
          then (next, bot_help sender s)
          else (if bytes_eq cmd (text "!time")
              then (next, bot_time sender s)
              else (if bytes_eq cmd (text "!info")
                  then (next, bot_info sender arg s)
                  else (if bytes_eq cmd (text "!joke")
                      then ((next + 1) % joke_count, bot_reply sender (get_or jokes next []) s)
                      else (
                        next,
                        bot_reply sender
                            (text "Unknown command. Type !help for available commands.") s,
                      )))))
