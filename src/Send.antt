-- ===== src/Send.antt =====
-- send/errors.go
pub mod Taxonomy
use botkit.Prelude.{
  ◌-◌, Bool, true, false, not, ◌||◌, Option, none, some, List, [], ◌∷◌, if◌then◌else◌, nat_eq, Text,
  codes, text_eq, contains,
}
use botkit.Errors.{
  not_in_group, group_not_found, not_logged_in, peer_unreachable, bot_wide, Error, plain, join,
  message, is,
}

abbrev pub err_peer_unreachable : Error
err_peer_unreachable = plain peer_unreachable (codes "peer unreachable")

abbrev pub err_bot_wide : Error
err_bot_wide = plain bot_wide (codes "bot-wide failure")

abbrev pub bot_wide_markers : List Text
bot_wide_markers =
    codes "the store doesn't contain a device JID"
    ∷ codes "device JID missing"
    ∷ codes "not paired yet"
    ∷ codes "websocket not connected"
    ∷ []

-- The loop of `isBotWide`.
unfoldable pub has_marker : List Text → Text → Bool
has_marker [] msg = false
has_marker (marker ∷ rest) msg = contains msg marker || has_marker rest msg

unfoldable pub is_bot_wide : Error → Bool
is_bot_wide e = if is e not_logged_in then true else has_marker bot_wide_markers (message e)

unfoldable pub classify : Option Error → Option Error
unfolding is_bot_wide
classify none = none
classify (some e) =
    if is e not_in_group || is e group_not_found
    then some (join err_peer_unreachable e)
    else if is_bot_wide e
    then some (join err_bot_wide e)
    else some e
