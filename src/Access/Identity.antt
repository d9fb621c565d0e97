-- ===== src/Access/Identity.antt =====
-- The canonical identities of access_control.rs, `<channel>:<sender>`.
use Prim.Native.String.{len, slice}
use text.Mathlib.TextPositions.{len-append, slice-append_left, slice-append_middle}
use text.Mathlib.TextLemmas.{append-nil, append_assoc}
use adk_gateway.Common.{
  ◌+◌, String, Option, none, some, if◌then◌else◌, str_eq, concat, ◌≡◌, refl, sym, ap, ◌∙◌,
}
use adk_gateway.Router.{
  ChannelType, telegram, slack, discord, whatsapp, matrix, signal, imessage, webhook,
  InboundMessage, channel_name,
}
use adk_gateway.Access.{map_identity}

-- The first two letters of a channel's name tell the channel.
initials : ChannelType → String
initials telegram = "te"
initials slack = "sl"
initials discord = "di"
initials whatsapp = "wh"
initials matrix = "ma"
initials signal = "si"
initials imessage = "im"
initials webhook = "we"

channel_of : String → Option ChannelType
channel_of s =
    if str_eq s "te"
    then some telegram
    else if str_eq s "sl"
    then some slack
    else if str_eq s "di"
    then some discord
    else if str_eq s "wh"
    then some whatsapp
    else if str_eq s "ma"
    then some matrix
    else if str_eq s "si"
    then some signal
    else if str_eq s "im"
    then some imessage
    else if str_eq s "we"
    then some webhook
    else none

channel_of-initials : (c : ChannelType) → channel_of (initials c) ≡ some c
unfolding channel_of initials
channel_of-initials telegram = refl
channel_of-initials slack = refl
channel_of-initials discord = refl
channel_of-initials whatsapp = refl
channel_of-initials matrix = refl
channel_of-initials signal = refl
channel_of-initials imessage = refl
channel_of-initials webhook = refl

slice_two :
    (first rest text : String) → len first ≡ 2 → slice (concat (concat first rest) text) 0 2 ≡ first
slice_two first rest text two =
    rw (append_assoc first rest text, sym two) (slice-append_left first (concat rest text))

slice-channel_name :
    (c : ChannelType) (text : String) → slice (concat (channel_name c) text) 0 2 ≡ initials c
unfolding channel_name initials
slice-channel_name telegram text = slice_two "te" "legram" text refl
slice-channel_name slack text = slice_two "sl" "ack" text refl
slice-channel_name discord text = slice_two "di" "scord" text refl
slice-channel_name whatsapp text = slice_two "wh" "atsapp" text refl
slice-channel_name matrix text = slice_two "ma" "trix" text refl
slice-channel_name signal text = slice_two "si" "gnal" text refl
slice-channel_name imessage text = slice_two "im" "essage" text refl
slice-channel_name webhook text = slice_two "we" "bhook" text refl

concat-drop : (s t : String) → slice (concat s t) (len s) (len (concat s t)) ≡ t
concat-drop s t =
    ap (λ k. slice (concat s t) (len s) k) (len-append s t)
    ∙ ap (λ u. slice (concat s u) (len s) (len s + len t)) (sym (append-nil t))
    ∙ slice-append_middle s t ""

concat_cancel : (s t u : String) → concat s t ≡ concat s u → t ≡ u
concat_cancel s t u e =
    sym (concat-drop s t) ∙ ap (λ v. slice v (len s) (len v)) e ∙ concat-drop s u

-- Two messages have the same canonical identity only if they come from the same sender on the same
-- channel: nobody is paired, allowed or given a role by way of another channel or sender.
pub map_identity_injective :
    (msg other : InboundMessage)
    → (map_identity msg).canonical_id ≡ (map_identity other).canonical_id
    → (msg.channel_type ≡ other.channel_type) × (msg.sender_id ≡ other.sender_id)
unfolding map_identity
map_identity_injective msg other e =
    let same_initials : initials msg.channel_type ≡ initials other.channel_type =
      sym (slice-channel_name msg.channel_type (concat ":" msg.sender_id))
      ∙ ap (λ v. slice v 0 2) e
      ∙ slice-channel_name other.channel_type (concat ":" other.sender_id) in
    let same : msg.channel_type ≡ other.channel_type =
      cc (channel_of-initials msg.channel_type, channel_of-initials other.channel_type) in
    (
      same,
      concat_cancel ":" msg.sender_id other.sender_id (
          concat_cancel (channel_name other.channel_type) (concat ":" msg.sender_id)
            (concat ":" other.sender_id)
            (ap (λ c. concat (channel_name c) (concat ":" msg.sender_id)) (sym same) ∙ e)),
    )
