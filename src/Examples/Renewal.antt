-- ===== src/Examples/Renewal.antt =====
-- packages/ts-sdk/src/wallet/vtxo-manager.ts on concrete coins.
use congenial_giggle.Common.{
  ◌*◌, ℕ, ◌≤◌, ◌<◌, ◌≡◌, refl, subst, Bool, true, false, ◌&&◌, not, List, [], ◌∷◌, none, some, ok,
  err, leb, filter, is_empty, if◌then◌else◌, map,
}
use congenial_giggle.Common.Results.{ok_injective}
use congenial_giggle.Common.Sets.{IsDistinct}
use congenial_giggle.Common.Int.{◌-ℤ◌}
use congenial_giggle.Extension.Asset.Packet.{same_text}
use congenial_giggle.Wallet.VtxoManager.Boarding.{sweep_vsize}
use congenial_giggle.Utils.TxSizeEstimator.{
  vsize, vsize_of, weight_of, add_output_script, add_tapscript_input, get_var_int_size, create,
}
use congenial_giggle.Wallet.Ramps.{SettleParams}
use congenial_giggle.Wallet.VtxoManager.{
  swept, preconfirmed, settled, Vtxo, SettlementConfig, nothing_to_recover, settle_all, sum_values,
  should_recover, recover_vtxos, renew_vtxos, get_recoverable_with_subdust, get_recoverable_vtxos,
  is_recoverable, is_spendable, is_subdust, is_expired,
}
use congenial_giggle.Wallet.VtxoManager.Laws as ManagerLaws
use congenial_giggle.Wallet.VtxoManager.Boarding.{
  Utxo, RelativeTimelock, blocks, Answers, outpoint, settle_boarding_utxos, settle_unsettled,
  unsettled_utxos, sweep_expired_boarding_utxos, get_expired_boarding_utxos,
  has_boarding_tx_expired, unswept_utxos,
}
use congenial_giggle.Wallet.VtxoManager.Boarding.Laws.{IsMarked}
use congenial_giggle.Wallet.VtxoManager.Polling.{
  Poller, constructed, startup_timer_fires, poll_timer_fires, begin_poll, finish_poll,
  schedule_poll, poll_body, poll_coins, get_next_poll_delay, poll_interval, max_backoff_ms, Steps,
  done, startup_fired, poll_fired, finished,
}
use congenial_giggle.Wallet.VtxoManager.Polling.Laws as PollingLaws
use congenial_giggle.Wallet.VtxoManager.Polling.Marks as PollingMarks

-- A swept coin, a small one that is preconfirmed, and one that is to stay.
abbrev coins : List Vtxo
coins =
    record {
      txid = 1 ∷ [];
      vout = 0;
      value = 300;
      state = swept;
      batch_expiry = none;
      is_spent = false;
    }
    ∷ record {
      txid = 2 ∷ [];
      vout = 0;
      value = 100;
      state = preconfirmed;
      batch_expiry = none;
      is_spent = false;
    }
    ∷ record {
      txid = 3 ∷ [];
      vout = 1;
      value = 900;
      state = settled;
      batch_expiry = none;
      is_spent = false;
    }
    ∷ []

abbrev is_height : ℕ → Bool
is_height time = leb time 1_000_000

abbrev address : List ℕ
address = 7 ∷ []

abbrev recovered : SettleParams Vtxo
recovered = settle_all address (filter (should_recover is_height 5_000_000 330) coins) 400

recovers : recover_vtxos is_height 5_000_000 address coins 330 ≡ ok recovered
unfolding recover_vtxos get_recoverable_with_subdust get_recoverable_vtxos should_recover
    is_recoverable is_spendable is_subdust is_expired
recovers = refl

recover_vtxos-cases_example : recover_vtxos is_height 5_000_000 address coins 330 ≡ (
    if not (is_empty (filter (should_recover is_height 5_000_000 330) coins))
      && leb 330 (sum_values (filter (should_recover is_height 5_000_000 330) coins))
    then ok (
        settle_all address
          (filter (should_recover is_height 5_000_000 330) coins)
          (sum_values (filter (should_recover is_height 5_000_000 330) coins)))
    else err nothing_to_recover)
recover_vtxos-cases_example = ManagerLaws.recover_vtxos-cases is_height 5_000_000 address coins 330

renew-recover_vtxos_example :
    (renewed : List Vtxo) × (renew_vtxos is_height 5_000_000 address none false coins 330
      ≡ ok (settle_all address renewed (sum_values renewed)))
    × (recovered ≡ settle_all address recovered.inputs (sum_values recovered.inputs))
    × (sum_values recovered.inputs ≤ sum_values renewed)
renew-recover_vtxos_example =
    ManagerLaws.renew-recover_vtxos is_height 5_000_000 address none coins 330 recovered recovers

abbrev config : SettlementConfig
config = record {
  vtxo_threshold = none;
  boarding_utxo_sweep = none;
  poll_interval_ms = some 600_000;
}

-- With an interval of 10 minutes, a failure brings the next poll forward.
get_next_poll_delay-bounds_example :
    (◌≡◌ {A = ℕ} 1 0 → get_next_poll_delay (some config) 1 ≡ poll_interval config)
    × (0 < 1 → get_next_poll_delay (some config) 1 ≤ max_backoff_ms)
    × (poll_interval config ≤ max_backoff_ms
        → poll_interval config ≤ get_next_poll_delay (some config) 1)
    × (max_backoff_ms < poll_interval config
        → 0 < 1
        → get_next_poll_delay (some config) 1 ≡ max_backoff_ms)
get_next_poll_delay-bounds_example = PollingLaws.get_next_poll_delay-bounds config 1

abbrev boarding : List Utxo
boarding =
    record { txid = 1 ∷ []; vout = 0; value = 5000; block_time = some 10; block_height = some 100 }
    ∷ record {
      txid = 2 ∷ [];
      vout = 1;
      value = 7000;
      block_time = some 20;
      block_height = some 190;
    }
    ∷ []

-- At height 200 the first coin is expired and the second is new.
abbrev lock : RelativeTimelock
lock = blocks 100

abbrev answers : Answers
answers = record {
  boarding_utxos = ok boarding;
  settle_tip = ok 200;
  settle_now = 0;
  settle = λ inputs amount. ok (8 ∷ []);
  sweep_tip = ok 200;
  sweep_now = 0;
  exit_leaf = record { leaf_script_size = 40; control_block_size = 32 };
  boarding_script = 81 ∷ 32 ∷ [];
  fee_of_size = ok (λ size. size * 2);
  broadcast = λ inputs amount. ok (9 ∷ []);
}

abbrev after_start : Poller
after_start = startup_timer_fires true constructed

abbrev after_poll : Poller
after_poll = finish_poll (some config) lock 330 answers after_start

abbrev after_timer : Poller
after_timer = poll_timer_fires true after_poll

abbrev after_both : Poller
after_both = finish_poll (some config) lock 330 answers after_timer

-- Two polls with the same coins.
is_running : after_start.poll_in_progress ≡ true
unfolding startup_timer_fires begin_poll
is_running = refl

timer_set : after_poll.poll_timer ≡ some 600_000
unfolding startup_timer_fires finish_poll schedule_poll poll_timer_fires begin_poll poll_body
    poll_coins sweep_expired_boarding_utxos get_expired_boarding_utxos unswept_utxos
    has_boarding_tx_expired ◌-ℤ◌ settle_boarding_utxos settle_unsettled unsettled_utxos same_text
    get_next_poll_delay sweep_vsize vsize vsize_of weight_of add_output_script add_tapscript_input
    get_var_int_size create
timer_set = refl

is_running_again : after_timer.poll_in_progress ≡ true
unfolding startup_timer_fires finish_poll schedule_poll poll_timer_fires begin_poll poll_body
    poll_coins sweep_expired_boarding_utxos get_expired_boarding_utxos unswept_utxos
    has_boarding_tx_expired ◌-ℤ◌ settle_boarding_utxos settle_unsettled unsettled_utxos same_text
is_running_again = refl

abbrev steps : Steps (some config) lock 330 true after_both
steps =
    finished answers
      (poll_fired 600_000 (finished answers (startup_fired done refl) is_running) timer_set)
      is_running_again

boarding-IsDistinct :
    (utxos : List Utxo) → answers.boarding_utxos ≡ ok utxos → IsDistinct (map outpoint utxos)
boarding-IsDistinct utxos given =
    subst (λ u. IsDistinct (map outpoint u)) (ok_injective given) (((λ h. cc, tt), (tt, tt)))

Steps-IsAlive_example : PollingLaws.IsAlive after_both
Steps-IsAlive_example = PollingLaws.Steps-IsAlive config lock 330 after_both steps

Steps-IsMarked_example : IsMarked after_both.manager
Steps-IsMarked_example =
    PollingMarks.Steps-IsMarked (some config) lock 330 true after_both steps
      ((tt, boarding-IsDistinct), boarding-IsDistinct)

-- Both polls together have settled the new coin once and swept the expired one once.
settles_once :
    (after_both.manager.settled ≡ (2 ∷ [], 1) ∷ [])
    × (after_both.manager.broadcasts ≡ (1 ∷ [], 0) ∷ [])
unfolding startup_timer_fires finish_poll schedule_poll poll_timer_fires begin_poll poll_body
    poll_coins sweep_expired_boarding_utxos get_expired_boarding_utxos unswept_utxos
    has_boarding_tx_expired ◌-ℤ◌ settle_boarding_utxos settle_unsettled unsettled_utxos same_text
    sweep_vsize vsize vsize_of weight_of add_output_script add_tapscript_input get_var_int_size
    create
settles_once = (refl, refl)
