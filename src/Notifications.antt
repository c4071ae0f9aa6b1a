-- ===== src/Notifications.antt =====
-- Who is notified of what: src/services/notification_dispatcher.cpp. A notification that is created
-- is logged; its row, the push and the frame are the notification service's.
use realtime_chat.Common.{
  ℕ, List, [], ◌∷◌, ◌++◌, if◌then◌else◌, Bytes, codes, ◌==◌, bytes_eq, nat_eq,
}
use realtime_chat.Json.{Json, str, obj, field, end, id}

pub data NotificationType : Type 0 where
  new_message_type added_to_group_type removed_from_group_type reaction_added_type :
      NotificationType

pub record Notification : Type 0 where
  pub user_id : ℕ
  pub type : NotificationType
  pub payload : Json

abbrev pub created : ℕ → NotificationType → Json → List Notification → List Notification
created user type payload ns =
    ns ++ (record { user_id = user; type = type; payload = payload } ∷ [])

unfoldable pub new_message : ℕ → ℕ → ℕ → List ℕ → List Notification → List Notification
new_message sender conversation message [] ns = ns
new_message sender conversation message (r ∷ rs) ns = new_message sender conversation message rs (
    if r == sender
    then ns
    else created r new_message_type
        (obj (
          field (codes "conversation_id") (id conversation)
            (field (codes "message_id") (id message) (field (codes "sender_id") (id sender) end))))
        ns)

unfoldable pub group_payload : ℕ → ℕ → Json
group_payload conversation actor =
    obj
      (field (codes "conversation_id") (id conversation) (field (codes "actor_id") (id actor) end))

unfoldable pub added_to_group : ℕ → ℕ → ℕ → List Notification → List Notification
added_to_group conversation added actor =
    created added added_to_group_type (group_payload conversation actor)

unfoldable pub removed_from_group : ℕ → ℕ → ℕ → List Notification → List Notification
removed_from_group conversation removed actor =
    created removed removed_from_group_type (group_payload conversation actor)

unfoldable pub reaction_added : ℕ → ℕ → ℕ → Bytes → List Notification → List Notification
reaction_added author message reactor emoji ns =
    if author == reactor
    then ns
    else created author reaction_added_type
        (obj (
          field (codes "message_id") (id message)
            (field (codes "reactor_id") (id reactor) (field (codes "emoji") (str emoji) end))))
        ns

unfoldable pub profile_updated : ℕ → List Notification → List Notification
profile_updated user ns = ns
