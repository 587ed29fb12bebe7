-- ===== src/Registry/Methods.antt =====
-- portal/booth_state.py: a method call on the registry that changes it, and what the registry is
-- after it. `marking` is the overload report of portal/websockets/manager.py.
use voxbento.Prelude.{Bool, true, Option, none, some, List, [], ◌∷◌, Text, get, put, ◌≡◌}
use voxbento.Identity.{RoomValue}
use voxbento.Roles.{can_go_live}
use voxbento.Booth.Calls.{Join, Flags, mark_overloaded}
use voxbento.Registry.{
  Registry, Address, create_booth, remove_booth, snapshot, registry_join, registry_leave,
  registry_set_broadcast_unlocked, registry_set_active, registry_initiate_handoff,
  registry_accept_handoff, registry_cancel_handoff, registry_add_chat_message,
  registry_update_participant_state, registry_check_publish_permission,
}

pub data MethodCall : Type 0 where
  creating : Text → Text → Text → RoomValue → Text → Text → MethodCall
  removing : Text → RoomValue → Text → MethodCall
  showing : Address → MethodCall
  joining : Address → Join → MethodCall
  leaving : Address → Text → MethodCall
  unlocking : Address → Bool → Text → MethodCall
  activating : Address → Text → Text → Text → MethodCall
  initiating : Address → Text → MethodCall
  accepting : Address → Text → Text → MethodCall
  cancelling : Address → Text → MethodCall
  chatting : Address → Text → Option Text → Text → Text → MethodCall
  updating : Address → Text → Flags → Text → MethodCall
  checking : Address → Text → MethodCall
  marking : Text → MethodCall

module _ (lower : Text → Text) where
  unfoldable pub call : MethodCall → Registry → Registry
  call (creating slug code language room channel inst) r =
      (create_booth lower slug code language room channel inst r).1
  call (removing slug room code) r = (remove_booth lower slug room code r).1
  call (showing a) r = (snapshot lower a r).1
  call (joining a j) r = (registry_join lower a j r).1
  call (leaving a id) r = (registry_leave lower a id r).1
  call (unlocking a unlocked now) r = (registry_set_broadcast_unlocked lower a unlocked now r).1
  call (activating a requester target now) r =
      (registry_set_active lower a requester target now r).1
  call (initiating a id) r = (registry_initiate_handoff lower a id r).1
  call (accepting a id now) r = (registry_accept_handoff lower a id now r).1
  call (cancelling a id) r = (registry_cancel_handoff lower a id r).1
  call (chatting a id body fresh now) r = (registry_add_chat_message lower a id body fresh now r).1
  call (updating a id flags now) r = (registry_update_participant_state lower a id flags now r).1
  call (checking a id) r = (registry_check_publish_permission lower a id r).1
  call (marking id) r = elim (get id r) [ none ↦ r | some b ↦ put id (mark_overloaded b) r ]

  unfoldable pub calls : List MethodCall → Registry → Registry
  calls [] r = r
  calls (c ∷ cs) r = calls cs (call c r)

-- Who joins has a role that can go live: every role that is_at_least some role is one of the four.
abbrev pub IsRoleMethod : MethodCall → Type 0
IsRoleMethod (joining a j) = can_go_live (some j.role) ≡ true
IsRoleMethod _ = Unit

abbrev pub AllRoleMethods : List MethodCall → Type 0
AllRoleMethods [] = Unit
AllRoleMethods (c ∷ cs) = IsRoleMethod c × AllRoleMethods cs
