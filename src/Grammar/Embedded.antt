-- ===== src/Grammar/Embedded.antt =====
-- src/grammar/EmbeddedGrammarSource.cpp: the grammar of the protocol, line by line.
use Prim.Native.String.{String}
use ft_irc.Prelude.{Bytes, text, nat_key, bytes_key, List, [], ◌∷◌, ◌++◌}

abbrev pub with_newlines : List String → Bytes
unfolding text
with_newlines [] = []
with_newlines (s ∷ ss) = text s ++ (10 ∷ with_newlines ss)

abbrev pub embedded_lines : List String
embedded_lines =
    "SPACE      =  %x20" ∷ "nospcrlfcl =  %x01-09 / %x0B-0C / %x0E-1F / %x21-39 / %x3B-FF"
    ∷ "middle     =  nospcrlfcl *( \":\" / nospcrlfcl )"
    ∷ "trailing   =  *( \":\" / \" \" / nospcrlfcl )" ∷ "letter     =  %x41-5A / %x61-7A"
    ∷ "digit      =  %x30-39" ∷ "special    =  %x5B-60 / %x7B-7D"
    ∷ "nickname   =  ( letter / special ) *8( letter / digit / special / \"-\" )"
    ∷ "password   =  middle" ∷ "newnick    =  middle" ∷ "username   =  middle"
    ∷ "usermode   =  middle" ∷ "unused     =  middle" ∷ "realname   =  trailing"
    ∷ "quitmsg    =  trailing" ∷ "capsub     =  middle" ∷ "capparam   =  trailing"
    ∷ "pingtoken  =  trailing" ∷ "chanlist   =  middle" ∷ "keylist    =  middle"
    ∷ "partmsg    =  trailing" ∷ "msgtarget  =  middle" ∷ "msgtext    =  trailing"
    ∷ "kickchans  =  middle" ∷ "kickusers  =  middle" ∷ "kickreason =  trailing"
    ∷ "invnick    =  middle" ∷ "invchan    =  middle" ∷ "topicchan  =  middle"
    ∷ "topictext  =  trailing" ∷ "modetarget =  middle" ∷ "modestring =  middle"
    ∷ "modeparam  =  middle" ∷ "whomask    =  middle" ∷ "whoisnick  =  middle"
    ∷ "hostnick   =  middle"
    ∷ "cap-cmd    =  \"CAP\" [ SPACE $capsub [ SPACE [ \":\" ] $capparam ] ] *SPACE"
    ∷ "pass-cmd   =  \"PASS\" SPACE [ \":\" ] $password *SPACE"
    ∷ "nick-cmd   =  \"NICK\" SPACE [ \":\" ] $newnick *SPACE"
    ∷ "user-cmd   =  \"USER\" SPACE $username SPACE $usermode SPACE $unused SPACE \":\" $realname *SPACE"
    ∷ "quit-cmd   =  \"QUIT\" [ SPACE [ \":\" ] $quitmsg ] *SPACE"
    ∷ "pong-cmd   =  \"PONG\" [ SPACE [ \":\" ] $pingtoken ] *SPACE"
    ∷ "ping-cmd   =  \"PING\" [ SPACE [ \":\" ] $pingtoken ] *SPACE"
    ∷ "join-cmd   =  \"JOIN\" SPACE ( \"0\" / $chanlist [ SPACE $keylist ] ) *SPACE"
    ∷ "part-cmd   =  \"PART\" SPACE $chanlist [ SPACE [ \":\" ] $partmsg ] *SPACE"
    ∷ "privmsg-cmd = \"PRIVMSG\" SPACE $msgtarget SPACE [ \":\" ] $msgtext *SPACE"
    ∷ "notice-cmd =  \"NOTICE\" SPACE $msgtarget SPACE [ \":\" ] $msgtext *SPACE"
    ∷ "kick-cmd   =  \"KICK\" SPACE $kickchans SPACE $kickusers [ SPACE [ \":\" ] $kickreason ] *SPACE"
    ∷ "invite-cmd =  \"INVITE\" SPACE $invnick SPACE $invchan *SPACE"
    ∷ "topic-cmd  =  \"TOPIC\" SPACE $topicchan [ SPACE \":\" $topictext ] *SPACE"
    ∷ "mode-cmd   =  \"MODE\" SPACE $modetarget [ SPACE $modestring *13( SPACE $modeparam ) ] *SPACE"
    ∷ "who-cmd    =  \"WHO\" [ SPACE $whomask ] *SPACE"
    ∷ "whois-cmd  =  \"WHOIS\" SPACE [ middle SPACE ] $whoisnick *SPACE"
    ∷ "userhost-cmd = \"USERHOST\" SPACE $hostnick *4( SPACE $hostnick ) *SPACE"
    ∷ "command    =  1*letter / 3digit" ∷ "param      =  middle" ∷ "trail      =  trailing"
    ∷ "prefix     =  middle" ∷ "sp         =  1*SPACE"
    ∷ "params     =  *14( sp $param ) [ sp \":\" $trail ]"
    ∷ "           =/ 14( sp $param ) [ sp [ \":\" ] $trail ]"
    ∷ "message    =  *SPACE [ \":\" $prefix sp ] $command [ params ] *SPACE" ∷ []

unfoldable pub embedded_grammar : Bytes
unfolding text
embedded_grammar = with_newlines embedded_lines
