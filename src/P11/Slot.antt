-- ===== src/P11/Slot.antt =====
-- pkcs11/src/pkcs11/slot.h and slot.cpp: the object handles of a slot, and the card's life in it.
pub mod Handles
use opencie_pkcs.Base.{
  ℕ, ◌+◌, ◌/◌, ◌%◌, ◌≡◌, Bool, true, false, not, ◌&&◌, List, [], ◌∷◌, ◌++◌, Option, none, some,
  ◌==◌, if◌then◌else◌, is_some, Result, ok, throw, p11_error, logged_error, u64_mod, ltb, length,
}
use opencie_pkcs.Base.Map
use opencie_pkcs.Base.Map.{Map}
use opencie_pkcs.P11.Constants.{
  cku_user, cku_nobody, ckr_user_not_logged_in, ckr_token_not_recognized, ckf_rw_bit,
}
use opencie_pkcs.P11.State.{P11Object, Slot, Session, World, CardTemplate}
use opencie_pkcs.P11.State.Monad.{
  M, ◌>>=◌, ◌>>◌, return, fail, guard_not, after, get_slot, set_slot, get_object, set_object,
  on_env, template_call, update,
}
use opencie_pkcs.Util.Array.{equal}
use opencie_pkcs.P11.Object.{is_private, get_attribute, obj_class}

-- `flags & CKF_RW_SESSION` is not 0.
abbrev pub is_rw : ℕ → Bool
is_rw flags = flags / 2 % 2 == 1

-- GetIDFromObject behind its check, with GetNewObjectID. `++dwP11ObjCnt` is an unsigned long.
unfoldable pub handle_of : Slot → ℕ → ℕ × Slot
handle_of sl o = elim (Map.find o sl.obj_p11_map) [
  | some h ↦ (h, sl)
  | none ↦
      let h = (sl.p11_obj_cnt + 1) % u64_mod in
      (
        h,
        record sl {
          p11_obj_cnt = h;
          obj_p11_map = Map.assign o h sl.obj_p11_map;
          handle_p11_map = Map.assign h o sl.handle_p11_map;
        },
      )
]

-- DelObjectHandle. DelP11Object ends in the same steps in another order.
unfoldable pub forget_handle : Slot → ℕ → Slot
forget_handle sl o = elim (Map.find o sl.obj_p11_map) [
  | none ↦ sl
  | some h ↦ record sl {
    handle_p11_map = Map.erase h sl.handle_p11_map;
    obj_p11_map = Map.erase o sl.obj_p11_map;
  }
]

-- GetObjectFromID; `none` is the null pointer.
unfoldable pub object_of : Slot → ℕ → Option ℕ
object_of sl h = Map.find h sl.handle_p11_map

-- The first occurrence is erased.
unfoldable pub erase_object : ℕ → List ℕ → Option (List ℕ)
erase_object o [] = none
erase_object o (x ∷ xs) =
    if x == o then some xs else elim (erase_object o xs) [ none ↦ none | some ys ↦ some (x ∷ ys) ]

unfoldable pub clear_p11_objects : Slot → Slot
clear_p11_objects sl = record sl { p11_objects = []; obj_p11_map = []; handle_p11_map = [] }

-- RWSessionCount, over g_mSessions.
unfoldable pub rw_session_count : ℕ → Map Session → ℕ
rw_session_count s [] = 0
rw_session_count s ((h, v) ∷ m) =
    if v.slot == s && is_rw v.flags then rw_session_count s m + 1 else rw_session_count s m

-- The loop of Final over g_mSessions.
unfoldable pub erase_sessions : ℕ → Map Session → Map Session
erase_sessions s [] = []
erase_sessions s ((h, v) ∷ m) =
    if v.slot == s then erase_sessions s m else (h, v) ∷ erase_sessions s m

abbrev same_value : Option (List ℕ) → List ℕ → Bool
same_value none value = false
same_value (some bytes) value = equal bytes value

module _ {E : Type 0} where
  unfoldable pub del_object_handle : ℕ → ℕ → M E (Unit {0})
  unfolding forget_handle
  del_object_handle s o = get_slot s >>= λ sl. set_slot s (forget_handle sl o)

  unfoldable pub get_object_from_id : ℕ → ℕ → M E (Option ℕ)
  unfolding object_of
  get_object_from_id s h = get_slot s >>= λ sl. return (object_of sl h)

  unfoldable pub add_p11_object : ℕ → P11Object → M E (Unit {0})
  add_p11_object s obj w = (
    ok tt,
    record w {
      objects = update w.objects w.next_object (record obj { slot = s });
      next_object = w.next_object + 1;
      slots =
          update w.slots s
            (record (w.slots s) { p11_objects = (w.slots s).p11_objects ++ (w.next_object ∷ []) });
    },
  )

  unfoldable pub add_p11_objects : ℕ → List P11Object → M E (Unit {0})
  unfolding add_p11_object
  add_p11_objects s [] = return tt
  add_p11_objects s (o ∷ os) = add_p11_object s o >> add_p11_objects s os

  unfoldable pub del_p11_object : ℕ → ℕ → M E (Unit {0})
  unfolding erase_object forget_handle
  del_p11_object s o = get_slot s >>= λ sl. elim (erase_object o sl.p11_objects) [
    | none ↦ fail logged_error
    | some rest ↦ set_slot s (forget_handle (record sl { p11_objects = rest }) o)
  ]

  -- What Final does to the slot and to g_mSessions after templateFinalCard. `dwSessionCount` goes
  -- down by one for each session, and is then set to 0.
  unfoldable pub clear_slot : ℕ → M E (Unit {0})
  unfolding erase_sessions
  clear_slot s w =
      let sl = w.slots s in
      (
        ok tt,
        record w {
          slots = update w.slots s (record sl {
            has_template = false;
            atr = [];
            serial = [];
            p11_objects = [];
            user = cku_nobody;
            session_count = 0;
            updated = false;
          });
          sessions = erase_sessions s w.sessions;
        },
      )

module _ {E : Type 0} (tpl : CardTemplate E) where
  unfoldable pub get_id_from_object : ℕ → ℕ → M E ℕ
  unfolding handle_of is_private
  get_id_from_object s o = is_private tpl o >>= λ p. get_slot s >>= λ sl.
      guard_not (p && not (sl.user == cku_user)) (p11_error ckr_user_not_logged_in)
      >> (set_slot s (handle_of sl o).1 >> return (handle_of sl o).0)

  -- The loop of FindP11Object.
  unfoldable pub find_p11_object : List ℕ → ℕ → ℕ → List ℕ → M E (Option ℕ)
  find_p11_object [] cls attr value = return none
  find_p11_object (o ∷ os) cls attr value =
      let rest : M E (Option ℕ) = find_p11_object os cls attr value in
      get_object o >>= λ obj.
      if obj_class obj == cls
      then (get_attribute tpl o attr >>= λ v. if same_value v value then return (some o) else rest)
      else rest

  -- Init, with CCardTemplate::GetTemplate as `match_card`.
  unfoldable pub init : ℕ → M E (Unit {0})
  init s = get_slot s >>= λ sl.
      if sl.updated
      then return tt
      else (if sl.has_template
          then return tt
          else (on_env (tpl.match_card s) >>= λ found.
              get_slot s >>= λ sl1. set_slot s (record sl1 { has_template = found })))
        >> (get_slot s >>= λ sl2.
            guard_not (not sl2.has_template) (p11_error ckr_token_not_recognized)
            >> (on_env (tpl.init_card s)
                >> (get_slot s >>= λ sl3. set_slot s (record sl3 { updated = true }))))

  -- Final.
  unfoldable pub final : ℕ → M E (Unit {0})
  unfolding clear_slot
  final s = get_slot s >>= λ sl.
      if sl.updated then template_call s (tpl.final_card s) >> clear_slot s else return tt
