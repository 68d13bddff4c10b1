-- ===== src/Examples/Course.antt =====
-- What the states of the session are, and that the server reaches them.
use ft_irc.Channel.Names.{names_entry, add_entry, names_loop, names_chunks}
use ft_irc.Server.Channels.{put_channel, find_channel}
use ft_irc.Commands.Channels.{
  names_budget, reply_topic, reply_modes, reply_each, reply_names, joined, join_one, join_each,
  cmd_join,
}
use ft_irc.Channel.{
  add_member, remove_member, is_member, is_empty, set_operator, is_invited, remove_invite,
  new_channel, mode_string, mode_params,
}
use ft_irc.Limits.{server_name, server_version, server_created}
use ft_irc.Validation.{
  nick_start, nick_byte, is_valid_nickname, is_valid_channel_name, username_byte, is_valid_username,
  cut,
}
use ft_irc.Commands.Messaging.{seen_alive, cmd_quit}
use ft_irc.Commands.Registration.{
  set_nickname, set_password, set_nick_set, set_registered, apply_user_mode_bitmask, take_user,
  cmd_pass, welcome, complete_registration, take_nick, cmd_nick, cmd_user,
}
use ft_irc.Dispatch.{commands, find_entry, find_command, run_handler, dispatch_command}
use ft_irc.Client.Sanitize.{strip_nul, find_byte, split_from, split_on_cr, extract}
use ft_irc.Extensions.{each_extension, notify_extensions}
use ft_irc.Lifecycle.{
  purge, mark_tearing_down, mark_pending_close, announce, has_pending_data, is_sendq_exceeded,
  teardown_client_state, disconnect_client,
}
use ft_irc.EventLoop.{
  mask, expired, accept_client, timeout_scan, each_fd, check_timeouts, check_pending_close_timeouts,
  handle_message, handle_lines, receive, handle_client_input, update_epoll_interest,
  tick_extensions,
}
use ft_irc.Reachable.{started, iterated, Reach}
use ft_irc.Prelude.{
  text, bytes_eq, bytes_lt, nat_key, bytes_key, lookup, insert, adjust, has_key, contains, include,
  exclude, ◌≡◌, refl, ap, true, false, some, [], ◌∷◌,
}
use ft_irc.Message.{matched, has, field, list, list_keep_empty}
use ft_irc.Grammar.MatchResult.{values_of, has_field, field_at}
use ft_irc.Client.{
  new_profile, prefix, new_client, append_to_recv_buffer, queue_message, extract_messages,
}
use ft_irc.Server.{new_server}
use ft_irc.Server.Store.{
  blank, profiles_of, profiles, who, adjust_client, set_profile, audit, nick_taken, is_nick_in_use,
  queue_to, send_reply, broadcast, send_once,
}
use ft_irc.EventLoop.Iteration.{
  handle_input, handle_read, handle_write, handle_broken, handle_event, handle_events,
  run_iteration,
}
use ft_irc.Examples.Libraries.{plain_str, plain_sock}
use ft_irc.Examples.Session.{
  parse_words, empty_server, both_connect, both_register, connected, registered, person, both_join,
  met, meeting, ann_quits, leaving, quitter,
}

pub connected-Reach : Reach parse_words connected
unfolding new_server handle_event accept_client lookup insert profiles_of new_client
connected-Reach =
    iterated both_connect 100 empty_server (refl, (refl, tt)) (started (text "pw") 10 100)

-- Both may be read: the masks that the first iteration set ask for input.
connected-masks : connected.epoll_mask ≡ (5, mask true false) ∷ (6, mask true false) ∷ []
unfolding new_server run_iteration handle_events handle_event accept_client new_client new_profile
    insert lookup check_timeouts timeout_scan check_pending_close_timeouts expired tick_extensions
    notify_extensions each_extension each_fd update_epoll_interest has_pending_data who profiles_of
    blank
connected-masks = refl

pub newcomer : (who connected 5).registered ≡ false
unfolding new_server run_iteration handle_events handle_event accept_client new_client new_profile
    insert lookup check_timeouts timeout_scan check_pending_close_timeouts expired tick_extensions
    notify_extensions each_extension each_fd update_epoll_interest has_pending_data who profiles_of
    blank
newcomer = refl

pub registered-Reach : Reach parse_words registered
unfolding lookup
registered-Reach =
    iterated both_register 101 connected
      (
        refl,
        λ _. (mask true false, ap (lookup 5) connected-masks, refl),
        (refl, λ _. (mask true false, ap (lookup 6) connected-masks, refl), tt),
      )
      connected-Reach

registered-masks : registered.epoll_mask ≡ (5, mask true true) ∷ (6, mask true true) ∷ []
unfolding new_server handle_event accept_client lookup insert profiles_of new_client run_iteration
    handle_events new_profile each_fd tick_extensions notify_extensions each_extension
    check_pending_close_timeouts expired check_timeouts has_key update_epoll_interest handle_broken
    handle_write handle_read handle_input handle_client_input handle_lines extract_messages extract
    receive append_to_recv_buffer text split_on_cr split_from strip_nul find_byte handle_message
    dispatch_command find_command find_entry commands bytes_eq run_handler cmd_pass who
    adjust_client adjust seen_alive set_profile set_password cmd_nick is_valid_nickname matched
    nick_start nick_byte is_nick_in_use nick_taken cut take_nick set_nick_set set_nickname cmd_user
    is_valid_username username_byte complete_registration take_user apply_user_mode_bitmask audit
    welcome send_reply queue_to queue_message set_registered is_sendq_exceeded server_name prefix
    server_version server_created has_pending_data cmd_join has has_field values_of join_each list
    field_at list_keep_empty join_one is_valid_channel_name find_channel joined reply_modes
    reply_names reply_each names_chunks names_loop new_channel set_operator add_member include
    add_entry names_entry contains reply_topic broadcast put_channel mode_string mode_params
    is_member remove_invite names_budget is_invited exclude bytes_lt
registered-masks = refl

pub met-Reach : Reach parse_words met
unfolding lookup
met-Reach =
    iterated both_join 102 registered
      (
        refl,
        λ _. (mask true true, ap (lookup 5) registered-masks, refl),
        (refl, λ _. (mask true true, ap (lookup 6) registered-masks, refl), tt),
      )
      registered-Reach

pub met-channels : met.channels ≡ (text "#c", meeting) ∷ []
unfolding new_server handle_event accept_client lookup insert profiles_of new_client run_iteration
    handle_events new_profile each_fd tick_extensions notify_extensions each_extension
    check_pending_close_timeouts expired check_timeouts has_key update_epoll_interest handle_broken
    handle_write handle_read handle_input handle_client_input handle_lines extract_messages extract
    receive append_to_recv_buffer text split_on_cr split_from strip_nul find_byte handle_message
    dispatch_command find_command find_entry commands bytes_eq run_handler cmd_pass who
    adjust_client adjust seen_alive set_profile set_password cmd_nick is_valid_nickname matched
    nick_start nick_byte is_nick_in_use nick_taken cut take_nick set_nick_set set_nickname cmd_user
    is_valid_username username_byte complete_registration take_user apply_user_mode_bitmask audit
    welcome send_reply queue_to queue_message set_registered is_sendq_exceeded server_name prefix
    server_version server_created has_pending_data cmd_join has has_field values_of join_each list
    field_at list_keep_empty join_one is_valid_channel_name find_channel joined reply_modes
    reply_names reply_each names_chunks names_loop new_channel set_operator add_member include
    add_entry names_entry contains reply_topic broadcast put_channel mode_string mode_params
    is_member remove_invite names_budget is_invited exclude bytes_lt
met-channels = refl

pub met-profiles :
    profiles met
    ≡ (5, person 5 (text "ann") (text "a") (text "A"))
      ∷ (6, person 6 (text "bob") (text "b") (text "B"))
      ∷ []
unfolding new_server handle_event accept_client lookup insert profiles_of new_client run_iteration
    handle_events new_profile each_fd tick_extensions notify_extensions each_extension
    check_pending_close_timeouts expired check_timeouts has_key update_epoll_interest handle_broken
    handle_write handle_read handle_input handle_client_input handle_lines extract_messages extract
    receive append_to_recv_buffer text split_on_cr split_from strip_nul find_byte handle_message
    dispatch_command find_command find_entry commands bytes_eq run_handler cmd_pass who
    adjust_client adjust seen_alive set_profile set_password cmd_nick is_valid_nickname matched
    nick_start nick_byte is_nick_in_use nick_taken cut take_nick set_nick_set set_nickname cmd_user
    is_valid_username username_byte complete_registration take_user apply_user_mode_bitmask audit
    welcome send_reply queue_to queue_message set_registered is_sendq_exceeded server_name prefix
    server_version server_created has_pending_data cmd_join has has_field values_of join_each list
    field_at list_keep_empty join_one is_valid_channel_name find_channel joined reply_modes
    reply_names reply_each names_chunks names_loop new_channel set_operator add_member include
    add_entry names_entry contains reply_topic broadcast put_channel mode_string mode_params
    is_member remove_invite names_budget is_invited exclude bytes_lt
met-profiles = refl

met-masks : met.epoll_mask ≡ (5, mask true true) ∷ (6, mask true true) ∷ []
unfolding new_server handle_event accept_client lookup insert profiles_of new_client run_iteration
    handle_events new_profile each_fd tick_extensions notify_extensions each_extension
    check_pending_close_timeouts expired check_timeouts has_key update_epoll_interest handle_broken
    handle_write handle_read handle_input handle_client_input handle_lines extract_messages extract
    receive append_to_recv_buffer text split_on_cr split_from strip_nul find_byte handle_message
    dispatch_command find_command find_entry commands bytes_eq run_handler cmd_pass who
    adjust_client adjust seen_alive set_profile set_password cmd_nick is_valid_nickname matched
    nick_start nick_byte is_nick_in_use nick_taken cut take_nick set_nick_set set_nickname cmd_user
    is_valid_username username_byte complete_registration take_user apply_user_mode_bitmask audit
    welcome send_reply queue_to queue_message set_registered is_sendq_exceeded server_name prefix
    server_version server_created has_pending_data cmd_join has has_field values_of join_each list
    field_at list_keep_empty join_one is_valid_channel_name find_channel joined reply_modes
    reply_names reply_each names_chunks names_loop new_channel set_operator add_member include
    add_entry names_entry contains reply_topic broadcast put_channel mode_string mode_params
    is_member remove_invite names_budget is_invited exclude bytes_lt
met-masks = refl

pub leaving-Reach : Reach parse_words leaving
unfolding lookup
leaving-Reach =
    iterated ann_quits 103 met (refl, λ _. (mask true true, ap (lookup 5) met-masks, refl), tt)
      met-Reach

pub leaving-found : lookup 5 (profiles leaving) ≡ some quitter
unfolding new_server handle_event accept_client lookup insert profiles_of new_client run_iteration
    handle_events new_profile each_fd tick_extensions notify_extensions each_extension
    check_pending_close_timeouts expired check_timeouts has_key update_epoll_interest handle_broken
    handle_write handle_read handle_input handle_client_input handle_lines extract_messages extract
    receive append_to_recv_buffer text split_on_cr split_from strip_nul find_byte handle_message
    dispatch_command find_command find_entry commands bytes_eq run_handler cmd_pass who
    adjust_client adjust seen_alive set_profile set_password cmd_nick is_valid_nickname matched
    nick_start nick_byte is_nick_in_use nick_taken cut take_nick set_nick_set set_nickname cmd_user
    is_valid_username username_byte complete_registration take_user apply_user_mode_bitmask audit
    welcome send_reply queue_to queue_message set_registered is_sendq_exceeded server_name prefix
    server_version server_created has_pending_data cmd_join has has_field values_of join_each list
    field_at list_keep_empty join_one is_valid_channel_name find_channel joined reply_modes
    reply_names reply_each names_chunks names_loop new_channel set_operator add_member include
    add_entry names_entry contains reply_topic broadcast put_channel mode_string mode_params
    is_member remove_invite names_budget is_invited exclude bytes_lt cmd_quit disconnect_client
    teardown_client_state announce send_once purge mark_tearing_down mark_pending_close
    remove_member is_empty field
leaving-found = refl

pub leaving-mask : lookup 5 leaving.epoll_mask ≡ some (mask false true)
unfolding new_server handle_event accept_client lookup insert profiles_of new_client run_iteration
    handle_events new_profile each_fd tick_extensions notify_extensions each_extension
    check_pending_close_timeouts expired check_timeouts has_key update_epoll_interest handle_broken
    handle_write handle_read handle_input handle_client_input handle_lines extract_messages extract
    receive append_to_recv_buffer text split_on_cr split_from strip_nul find_byte handle_message
    dispatch_command find_command find_entry commands bytes_eq run_handler cmd_pass who
    adjust_client adjust seen_alive set_profile set_password cmd_nick is_valid_nickname matched
    nick_start nick_byte is_nick_in_use nick_taken cut take_nick set_nick_set set_nickname cmd_user
    is_valid_username username_byte complete_registration take_user apply_user_mode_bitmask audit
    welcome send_reply queue_to queue_message set_registered is_sendq_exceeded server_name prefix
    server_version server_created has_pending_data cmd_join has has_field values_of join_each list
    field_at list_keep_empty join_one is_valid_channel_name find_channel joined reply_modes
    reply_names reply_each names_chunks names_loop new_channel set_operator add_member include
    add_entry names_entry contains reply_topic broadcast put_channel mode_string mode_params
    is_member remove_invite names_budget is_invited exclude bytes_lt cmd_quit disconnect_client
    teardown_client_state announce send_once purge mark_tearing_down mark_pending_close
    remove_member is_empty field
leaving-mask = refl
