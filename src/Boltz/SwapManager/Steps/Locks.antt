-- ===== src/Boltz/SwapManager/Steps/Locks.antt =====
-- The set `swapsInProgress` is a lock for each swap.
use congenial_giggle.Common.{
  ◌==◌, ◌≡◌, refl, sym, ap, subst, ◌∙◌, ◌≢◌, ◌↔◌, inl, inr, arith, Bool, true, false, ◌&&◌, ◌||◌,
  not, List, [], ◌∷◌, ◌++◌, map, Option, none, some, is_empty, if_elim, Bool-cases, zero, suc, ok,
  ==_iff,
}
use congenial_giggle.Common.Int.{ℤ, pos, negsuc}
use congenial_giggle.Common.Results.{thrown, ok_injective}
use congenial_giggle.Common.Sets.{IsNew, IsDistinct}
use congenial_giggle.Common.Dict.{has_item, add_item, delete_item}
use congenial_giggle.Extension.Asset.Hex.{Text}
use congenial_giggle.Extension.Asset.Packet.{same_text}
use congenial_giggle.Extension.Asset.Packet.Laws.{same_text_iff}
use congenial_giggle.Boltz.Status.{BoltzSwapStatus, same}
use congenial_giggle.Boltz.Swap.{
  BoltzSwap, reverse, submarine, chain, id_of, status_of, with_status,
}
use congenial_giggle.Boltz.SwapManager.{
  Manager, Ref, Acting, emit, create, SwapManagerConfig, PollTimer, regular, fallback, Actions,
}
use congenial_giggle.Boltz.SwapManager.Connection.{
  start_polling, start_polling_fallback, poll_timer_fires, after_poll, enter_polling_fallback,
  restart_timer, set_poll_interval, subscribe_to_swap, subscribe_to_all, on_open, on_error,
  on_timeout, on_initial_poll, try_connect_web_socket, schedule_reconnect, on_reconnect, on_close,
}
use congenial_giggle.Boltz.SwapManager.Updates.{
  assign, action_of, finish_update, finish_if, should_resume, outcome_events, lock, unlock,
  start_action, execute_autonomous_action, Outcome, end_action, handle_swap_status_update,
  after_save, resume, Message, handle_swap_message, handle_web_socket_message, Poll, answered,
  rate_limited, poll_failed, handle_poll, handle_retry,
}
use congenial_giggle.Boltz.SwapManager.Monitoring.{
  start, stop, add_swap, remove_swap, subscribe_to_swap_updates, unsubscribe,
}
use congenial_giggle.Boltz.SwapManager.Steps.{
  Step, started, added, removed, interval_set, subscribed, unsubscribed, socket_opened, poll_fired,
  socket_failed, socket_timed_out, socket_closed, reconnected, initially_polled, polled, messaged,
  poll_ended, retried, resumed, saved, save_failed, acted, Reaches, constructed, then_step,
  then_stop,
}

abbrev pub acting_ids : Manager → List Text
acting_ids m = map (λ a. id_of (m.objects a.target)) m.acting

-- The locked swaps are those with an action that runs, and no swap has two.
pub record IsLocked (m : Manager) : Type 0 where
  pub locks : m.swaps_in_progress ≡ acting_ids m
  pub distinct : IsDistinct m.swaps_in_progress

-- Operations that touch neither locks, actions nor objects.
abbrev pub KeepsLocks : Manager → Manager → Type 0
KeepsLocks m m' =
    (m'.swaps_in_progress ≡ m.swaps_in_progress) × (m'.acting ≡ m.acting) × (m'.objects ≡ m.objects)

KeepsLocks-IsLocked : (m : Manager) {m' : Manager} → KeepsLocks m m' → IsLocked m → IsLocked m'
KeepsLocks-IsLocked m {m'} (same_locks, same_acting, same_objects) v = record {
  locks = same_locks ∙ v.locks ∙ λ i.
      map (λ a. id_of (sym same_objects i a.target)) (sym same_acting i);
  distinct = subst IsDistinct (sym same_locks) v.distinct;
}

KeepsLocks-try :
    (supported created : Bool) (m : Manager)
    → KeepsLocks m (try_connect_web_socket supported created m)
unfolding try_connect_web_socket enter_polling_fallback emit start_polling_fallback
KeepsLocks-try supported created m = ground arith

KeepsLocks-start :
    (supported created : Bool) (refs : List Ref) (m : Manager)
    → KeepsLocks m (start supported created refs m)
unfolding start try_connect_web_socket enter_polling_fallback emit start_polling_fallback
KeepsLocks-start supported created refs m = ground arith

KeepsLocks-add_swap : (r : Ref) (m : Manager) → KeepsLocks m (add_swap r m)
unfolding add_swap subscribe_to_swap emit start_polling_fallback
KeepsLocks-add_swap r m = ground arith

KeepsLocks-remove_swap : (id : Text) (m : Manager) → KeepsLocks m (remove_swap id m)
unfolding remove_swap
KeepsLocks-remove_swap id m = (refl, refl, refl)

KeepsLocks-restart : (m : Manager) → KeepsLocks m (restart_timer m)
unfolding restart_timer start_polling start_polling_fallback
KeepsLocks-restart m = ground arith

KeepsLocks-set_poll_interval :
    (ms : ℤ) (m m' : Manager) → set_poll_interval ms m ≡ ok m' → KeepsLocks m m'
unfolding set_poll_interval restart_timer start_polling start_polling_fallback
KeepsLocks-set_poll_interval (pos zero) m m' e = absurd (thrown e)
KeepsLocks-set_poll_interval (pos (suc n)) m m' e = ground (arith, ok_injective e)
KeepsLocks-set_poll_interval (negsuc n) m m' e = absurd (thrown e)

KeepsLocks-subscribe_to_all :
    (ids : List Text) (m : Manager) → KeepsLocks m (subscribe_to_all ids m)
unfolding subscribe_to_all subscribe_to_swap emit
KeepsLocks-subscribe_to_all [] m = (refl, refl, refl)
KeepsLocks-subscribe_to_all (id ∷ ids) m =
    ground (arith, KeepsLocks-subscribe_to_all ids (subscribe_to_swap id m))

KeepsLocks-on_open : (m : Manager) → KeepsLocks m (on_open m)
unfolding on_open emit start_polling
KeepsLocks-on_open m = KeepsLocks-subscribe_to_all _ _

KeepsLocks-on_error : (m : Manager) → KeepsLocks m (on_error m)
unfolding on_error enter_polling_fallback emit start_polling_fallback
KeepsLocks-on_error m = ground arith

KeepsLocks-on_timeout : (m : Manager) → KeepsLocks m (on_timeout m)
unfolding on_timeout enter_polling_fallback emit start_polling_fallback
KeepsLocks-on_timeout m = ground arith

KeepsLocks-on_close : (supported : Bool) (m : Manager) → KeepsLocks m (on_close supported m)
unfolding on_close schedule_reconnect emit
KeepsLocks-on_close supported m = ground arith

KeepsLocks-on_reconnect :
    (supported created : Bool) (m : Manager) → KeepsLocks m (on_reconnect supported created m)
unfolding on_reconnect
KeepsLocks-on_reconnect supported created m = KeepsLocks-try supported created _

KeepsLocks-after_poll : (timer : PollTimer) (m : Manager) → KeepsLocks m (after_poll timer m)
unfolding after_poll start_polling start_polling_fallback
KeepsLocks-after_poll (regular delay) m = ground arith
KeepsLocks-after_poll (fallback delay) m = ground arith

KeepsLocks-finish_if :
    (updating : Bool) (r : Ref) (m : Manager) → KeepsLocks m (finish_if updating r m)
unfolding finish_if finish_update emit
KeepsLocks-finish_if updating r m = ground arith

id_of-with_status :
    (status : BoltzSwapStatus) (swap : BoltzSwap) → id_of (with_status status swap) ≡ id_of swap
unfolding id_of with_status
id_of-with_status status (reverse swap) = refl
id_of-with_status status (submarine swap) = refl
id_of-with_status status (chain swap) = refl

finish_if-IsLocked :
    (updating : Bool) (r : Ref) (m : Manager) → IsLocked m → IsLocked (finish_if updating r m)
finish_if-IsLocked updating r m v = KeepsLocks-IsLocked m (KeepsLocks-finish_if updating r m) v

-- An assignment of a status leaves every id as it is.
id_of-assign :
    (r : Ref) (status : BoltzSwapStatus) (objects : Ref → BoltzSwap) (q : Ref)
    → id_of (assign r (with_status status (objects r)) objects q) ≡ id_of (objects q)
unfolding assign
id_of-assign r status objects q = elim (Bool-cases (r == q)) [
  | inl equal ↦
      rw (equal, id_of-with_status status (objects r))
        (ap (λ p. id_of (objects p)) ((==_iff r q).0 equal))
  | inr other ↦ rw (other) refl
]

map-id_of-assign :
    (r : Ref) (status : BoltzSwapStatus) (objects : Ref → BoltzSwap) (acting : List Acting)
    → map (λ a. id_of (assign r (with_status status (objects r)) objects a.target)) acting
      ≡ map (λ a. id_of (objects a.target)) acting
map-id_of-assign r status objects [] = refl
map-id_of-assign r status objects (a ∷ acting) =
    λ i. id_of-assign r status objects a.target i ∷ map-id_of-assign r status objects acting i

handle_swap_status_update-IsLocked :
    (r : Ref) (status : BoltzSwapStatus) (m : Manager)
    → IsLocked m
    → IsLocked (handle_swap_status_update r status m)
unfolding handle_swap_status_update emit
handle_swap_status_update-IsLocked r status m v =
    if_elim IsLocked (same (status_of (m.objects r)) status) (λ equal. v)
      (λ changed. record {
        locks = v.locks ∙ sym (map-id_of-assign r status m.objects m.acting);
        distinct = v.distinct;
      })

handle_swap_message-IsLocked :
    (found : Option Ref) (msg : Message) (m : Manager)
    → IsLocked m
    → IsLocked (handle_swap_message found msg m)
unfolding handle_swap_message emit
handle_swap_message-IsLocked none msg m v = v
handle_swap_message-IsLocked (some r) msg m v =
    if_elim IsLocked (is_empty msg.error)
      (λ fine. handle_swap_status_update-IsLocked r msg.status m v)
      (λ failed. KeepsLocks-IsLocked m (refl, refl, refl) v)

same_text_ne : (s t : Text) → s ≢ t → same_text s t ≡ false
same_text_ne s t ne = ground (arith, same_text_iff s t)

same_text_turned_iff : (s t : Text) → (same_text s t ≡ true) ↔ (t ≡ s)
same_text_turned_iff s t =
    let (to, from) = same_text_iff s t in (λ e. sym (to e), λ e. from (sym e))

has_item_iff :
    (id : Text) (items : List Text) → (has_item same_text id items ≡ false) ↔ IsNew id items
has_item_iff id [] = ground arith
has_item_iff id (j ∷ items) = ground (arith, same_text_turned_iff id j, has_item_iff id items)

delete_item-IsNew :
    (id : Text) (items : List Text) → IsNew id items → delete_item same_text id items ≡ items
delete_item-IsNew id [] new = refl
delete_item-IsNew id (j ∷ items) new =
    ground (arith, same_text_iff id j, delete_item-IsNew id items new.1)

-- Taking an item out of a set of distinct ones, wherever it stands.
IsNew-append :
    (id : Text) (before after : List Text)
    → IsNew id (before ++ after) ↔ (IsNew id before × IsNew id after)
IsNew-append id [] after = (λ h. (tt, h), λ h. h.1)
IsNew-append id (j ∷ before) after =
    let (to, from) = IsNew-append id before after in
    (λ (ne, h). ((ne, (to h).0), (to h).1), λ ((ne, h), k). (ne, from (h, k)))

delete_item-append :
    (id : Text) (before after : List Text)
    → IsDistinct (before ++ (id ∷ after))
    → (delete_item same_text id (before ++ (id ∷ after)) ≡ before ++ after)
      × IsDistinct (before ++ after)
delete_item-append id [] after (new, h) =
    let self = (same_text_iff id id).1 refl in
    (rw (delete_item, self) (delete_item-IsNew id after new), h)
delete_item-append id (j ∷ before) after (new, h) =
    let (same_items, distinct) = delete_item-append id before after h in
    let (front, back) = (IsNew-append j before (id ∷ after)).0 new in
    let other : same_text id j ≡ false = same_text_ne id j back.0 in
    (
      rw (delete_item, other) (ap (λ items. j ∷ items) same_items),
      ((IsNew-append j before after).1 (front, back.1), distinct),
    )

map-append : {A B : Type 0} (f : A → B) (xs ys : List A) → map f (xs ++ ys) ≡ map f xs ++ map f ys
map-append f [] ys = refl
map-append f (x ∷ xs) ys = ap (λ t. f x ∷ t) (map-append f xs ys)

delete_item-add_item :
    (id : Text) (items : List Text)
    → has_item same_text id items ≡ false
    → delete_item same_text id (add_item same_text id items) ≡ items
delete_item-add_item id items free =
    let self = (same_text_iff id id).1 refl in
    rw (free, delete_item, self) (delete_item-IsNew id items ((has_item_iff id items).0 free))

module _ (updating : Bool) (r : Ref) (m : Manager) where
  start_action-IsLocked :
      (action : Option Actions)
      → has_item same_text (id_of (m.objects r)) m.swaps_in_progress ≡ false
      → IsLocked m
      → IsLocked (start_action action updating r (lock (id_of (m.objects r)) m))
  unfolding start_action lock unlock
  start_action-IsLocked none free v =
      let same_items = delete_item-add_item (id_of (m.objects r)) m.swaps_in_progress free in
      finish_if-IsLocked updating r (unlock (id_of (m.objects r)) (lock (id_of (m.objects r)) m))
        (record {
          locks = same_items ∙ v.locks;
          distinct = subst IsDistinct (sym same_items) v.distinct;
        })
  start_action-IsLocked (some action) free v =
      let added : add_item same_text (id_of (m.objects r)) m.swaps_in_progress
          ≡ id_of (m.objects r) ∷ m.swaps_in_progress =
        rw free refl in
      record {
        locks = added ∙ ap (λ ids. id_of (m.objects r) ∷ ids) v.locks;
        distinct =
            subst IsDistinct (sym added)
              ((has_item_iff (id_of (m.objects r)) m.swaps_in_progress).0 free, v.distinct);
      }

  execute_autonomous_action-IsLocked :
      IsLocked m → IsLocked (execute_autonomous_action updating r m)
  unfolding execute_autonomous_action
  execute_autonomous_action-IsLocked v =
      if_elim IsLocked (has_item same_text (id_of (m.objects r)) m.swaps_in_progress)
        (λ held. finish_if-IsLocked updating r m v)
        (λ free. start_action-IsLocked (action_of (m.objects r)) free v)

after_save-IsLocked : (r : Ref) (m : Manager) → IsLocked m → IsLocked (after_save r m)
unfolding after_save finish_if
after_save-IsLocked r m v =
    if_elim IsLocked m.config.enable_auto_actions
      (λ auto. execute_autonomous_action-IsLocked true r m v) (λ off. finish_if-IsLocked true r m v)

resume-IsLocked : (r : Ref) (m : Manager) → IsLocked m → IsLocked (resume r m)
unfolding resume
resume-IsLocked r m v =
    if_elim IsLocked (m.config.enable_auto_actions && should_resume (m.objects r))
      (λ due. execute_autonomous_action-IsLocked false r m v) (λ idle. v)

end_action-IsLocked :
    (a : Acting) (outcome : Outcome) (before after : List Acting) (m : Manager)
    → m.acting ≡ before ++ (a ∷ after)
    → IsLocked m
    → IsLocked (end_action a outcome (record m { acting = before ++ after }))
unfolding end_action emit unlock
end_action-IsLocked a outcome before after m e v =
    let ids = λ (acting : List Acting). map (λ x. id_of (m.objects x.target)) acting in
    let split : m.swaps_in_progress ≡ ids before ++ (id_of (m.objects a.target) ∷ ids after) =
      v.locks ∙ ap ids e ∙ map-append _ before (a ∷ after) in
    let (left, distinct) =
      delete_item-append (id_of (m.objects a.target)) (ids before) (ids after)
        (subst IsDistinct split v.distinct) in
    let freed = ap (delete_item same_text (id_of (m.objects a.target))) split ∙ left in
    finish_if-IsLocked a.updating a.target
      (unlock (id_of (m.objects a.target)) (
        emit (outcome_events (m.objects a.target) a.action outcome)
          (record m { acting = before ++ after })))
      (record {
        locks = freed ∙ sym (map-append _ before after);
        distinct = subst IsDistinct (sym freed) distinct;
      })

handle_web_socket_message-IsLocked :
    (msg : Option Message) (m : Manager) → IsLocked m → IsLocked (handle_web_socket_message msg m)
unfolding handle_web_socket_message
handle_web_socket_message-IsLocked none m v = v
handle_web_socket_message-IsLocked (some msg) m v =
    if_elim IsLocked (not msg.is_update || is_empty msg.id) (λ skipped. v)
      (λ taken. handle_swap_message-IsLocked _ msg m v)

handle_poll-IsLocked :
    (r : Ref) (poll : Poll) (m : Manager) → IsLocked m → IsLocked (handle_poll r poll m)
unfolding handle_poll
handle_poll-IsLocked r (answered status) m v =
    if_elim IsLocked (same status (status_of (m.objects r))) (λ unchanged. v)
      (λ changed. handle_swap_status_update-IsLocked r status m v)
handle_poll-IsLocked r rate_limited m v = KeepsLocks-IsLocked m (refl, refl, refl) v
handle_poll-IsLocked r poll_failed m v = v

handle_retry-IsLocked :
    (r : Ref) (poll : Poll) (m : Manager) → IsLocked m → IsLocked (handle_retry r poll m)
unfolding handle_retry
handle_retry-IsLocked r (answered status) m v =
    handle_poll-IsLocked r (answered status)
      (record m {
        poll_retry_timers = delete_item same_text (id_of (m.objects r)) m.poll_retry_timers;
      })
      (KeepsLocks-IsLocked m (refl, refl, refl) v)
handle_retry-IsLocked r rate_limited m v = KeepsLocks-IsLocked m (refl, refl, refl) v
handle_retry-IsLocked r poll_failed m v = KeepsLocks-IsLocked m (refl, refl, refl) v

Step-IsLocked :
    (supported : Bool) (m : Manager) {m' : Manager} → Step supported m m' → IsLocked m → IsLocked m'
unfolding subscribe_to_swap_updates unsubscribe on_initial_poll poll_timer_fires
Step-IsLocked supported m (started created refs) v =
    KeepsLocks-IsLocked m (KeepsLocks-start supported created refs m) v
Step-IsLocked supported m (added r) v = KeepsLocks-IsLocked m (KeepsLocks-add_swap r m) v
Step-IsLocked supported m (removed id) v = KeepsLocks-IsLocked m (KeepsLocks-remove_swap id m) v
Step-IsLocked supported m (interval_set ms m' e) v =
    KeepsLocks-IsLocked m (KeepsLocks-set_poll_interval ms m m' e) v
Step-IsLocked supported m (subscribed id callback) v = KeepsLocks-IsLocked m (refl, refl, refl) v
Step-IsLocked supported m (unsubscribed id callback) v = KeepsLocks-IsLocked m (refl, refl, refl) v
Step-IsLocked supported m (socket_opened e) v = KeepsLocks-IsLocked m (KeepsLocks-on_open m) v
Step-IsLocked supported m (socket_failed) v = KeepsLocks-IsLocked m (KeepsLocks-on_error m) v
Step-IsLocked supported m (socket_timed_out) v = KeepsLocks-IsLocked m (KeepsLocks-on_timeout m) v
Step-IsLocked supported m (socket_closed) v =
    KeepsLocks-IsLocked m (KeepsLocks-on_close supported m) v
Step-IsLocked supported m (reconnected created e) v =
    KeepsLocks-IsLocked m (KeepsLocks-on_reconnect supported created m) v
Step-IsLocked supported m (initially_polled) v = KeepsLocks-IsLocked m (refl, refl, refl) v
Step-IsLocked supported m (poll_fired timer e pending) v =
    KeepsLocks-IsLocked m (refl, refl, refl) v
Step-IsLocked supported m (polled timer before after e) v =
    KeepsLocks-IsLocked m (KeepsLocks-after_poll timer (record m { polls = before ++ after })) v
Step-IsLocked supported m (messaged msg) v = handle_web_socket_message-IsLocked msg m v
Step-IsLocked supported m (poll_ended r poll) v = handle_poll-IsLocked r poll m v
Step-IsLocked supported m (retried r poll) v = handle_retry-IsLocked r poll m v
Step-IsLocked supported m (resumed r) v = resume-IsLocked r m v
Step-IsLocked supported m (saved r before after e) v =
    after_save-IsLocked r (record m { saving = before ++ after })
      (KeepsLocks-IsLocked m (refl, refl, refl) v)
Step-IsLocked supported m (save_failed r before after e) v =
    KeepsLocks-IsLocked m (refl, refl, refl) v
Step-IsLocked supported m (acted a outcome before after e) v =
    end_action-IsLocked a outcome before after m e v

KeepsLocks-stop : (m : Manager) → KeepsLocks m (stop m)
unfolding stop
KeepsLocks-stop m = ground arith

-- Whatever clients, socket, timers and server do, and in whatever order saves and actions end: the
-- locked swaps are those with an action that runs, and no swap has two actions at a time.
pub Reaches-IsLocked :
    {supported : Bool} {config : SwapManagerConfig} {objects : Ref → BoltzSwap} {m : Manager}
    → Reaches supported config objects m
    → IsLocked m
unfolding create
Reaches-IsLocked constructed = record { locks = refl; distinct = tt }
Reaches-IsLocked {supported} (then_step {m} reached step) =
    Step-IsLocked supported m step (Reaches-IsLocked reached)
Reaches-IsLocked (then_stop {m} reached) =
    KeepsLocks-IsLocked m (KeepsLocks-stop m) (Reaches-IsLocked reached)
