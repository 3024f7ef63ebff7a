-- ===== src/Sync/Tests.antt =====
-- Batches, deltas and pages at concrete inputs.
use menes_pos.Prelude.{
  ℕ, suc, ◌+◌, ◌≤◌, String, ◌≡◌, refl, true, false, ◌&&◌, Option, none, some, List, [], ◌∷◌, arith,
  leb, ◌==◌, if◌then◌else◌, str_eq, length, any, ℤ, pos, negsuc, ◌+ℤ◌, ◌-ℤ◌, ◌≤ℤ◌,
}
use mathlib.Core.List.Perm
use menes_pos.Sync.Push.{
  create, ingest, sort_by_seq, Event, Reply, result, raised, Counts, no_counts, Cloud, push,
  applied, skipped, is_row_of,
}
use menes_pos.Sync.Once.{times, pushes, pushes-once}
use menes_pos.Sync.Progress.{push_again, push-answers, all_upto, is_retry}
use menes_pos.Sync.Blocked.{push-blocked}
use menes_pos.Sync.Stock.{StockEngine, Branch, StockPayload, apply_deltas, apply_deltas-perm}
use menes_pos.Sync.Loyalty.{Loyalty, LoyaltyPayload, apply_txns, balance}
use menes_pos.Sync.Balance.{apply_txns-balance, history_sum}
use menes_pos.Sync.Apply.{Shop, Terminal, World, SalePayload, minted, unset, apply_sale}
use menes_pos.Sync.Sale.{apply_sale_again}
use menes_pos.Sync.Pull

abbrev event : ℕ → Option String → String → Event
event n u m = record { seq = pos n; res_uuid = u; model = m; op = some "create" }

-- A database that counts what it took in, and events of one model that fail.
abbrev counting : Event → ℕ → Reply ℕ
counting e n =
    if str_eq e.model "pos.order"
    then result applied none none (suc n)
    else raised "unknown sync model"

counting_never_retries : (e : Event) (n : ℕ) → is_retry counting 7 (counting e n) ≡ false
counting_never_retries e n = ground arith

abbrev batch : List Event
batch =
    event 3 (some "c") "pos.order"
    ∷ event 1 (some "a") "pos.order"
    ∷ event 2 (some "b") "poison"
    ∷ []

abbrev fresh : Cloud ℕ
fresh = record { world = 0; ledger = []; last_acked_seq = pos 0 }

abbrev watched : Cloud (ℕ × List String)
watched = record { world = (0, []); ledger = []; last_acked_seq = pos 0 }

pushes-once_example : times "a" (pushes counting 7 (batch ∷ batch ∷ []) watched).world.1 ≤ (
    if any (is_row_of 7 "a") (pushes counting 7 (batch ∷ batch ∷ []) watched).ledger then 1 else 0)
pushes-once_example = pushes-once counting 7 (batch ∷ batch ∷ []) watched "a" refl

push_again_example :
    push counting 7 batch (push counting 7 batch fresh).0
    ≡ ((push counting 7 batch fresh).0, some (pos 3, no_counts))
unfolding push sort_by_seq ingest create
push_again_example =
    push_again counting 7 batch fresh
      {a = (
        pos 3,
        record { applied_count = 2; skipped_count = 0; flagged_count = 0; failed_count = 1 },
      )}
      refl

push-answers_example :
    (n : ℤ) × (counts : Counts) × ((push counting 7 batch fresh).1 ≡ some (n, counts))
    × ((push counting 7 batch fresh).0.last_acked_seq ≡ n)
    × (pos 0 ≤ℤ n)
    × (all_upto n batch ≡ true)
push-answers_example = push-answers counting 7 batch fresh refl counting_never_retries

abbrev stuck : Cloud ℕ
stuck = (push counting 7 (event 4 none "pos.order" ∷ []) fresh).0

push-blocked_example : push counting 7 (event 5 none "pos.order" ∷ batch) stuck ≡ (stuck, none)
unfolding push sort_by_seq ingest create
push-blocked_example = push-blocked counting 7 (event 5 none "pos.order" ∷ batch) stuck refl refl

-- A stock engine that keeps its movements, newest first.
abbrev moves_on_hand : List (ℕ × ℕ × ℤ) → ℕ → ℕ → ℤ
moves_on_hand [] p l = pos 0
moves_on_hand ((q, m, d) ∷ ms) p l =
    if q == p && m == l then moves_on_hand ms p l +ℤ d else moves_on_hand ms p l

abbrev movements : StockEngine (List (ℕ × ℕ × ℤ))
movements = record {
  product_exists = λ p. leb p 9;
  on_hand = moves_on_hand;
  update_available_quantity = λ s p l d. (p, l, d) ∷ s;
  on_hand-update = λ s q m d p l. refl;
}

abbrev branch : Branch
branch = record { config = some 1; stock_location = some 8 }

abbrev stock_delta : ℕ → ℤ → StockPayload
stock_delta p d = record { product_id = some p; location_id = none; delta = some d }

abbrev forward : List StockPayload
forward = stock_delta 5 (negsuc 1) ∷ stock_delta 77 (pos 1) ∷ stock_delta 5 (pos 4) ∷ []

abbrev backward : List StockPayload
backward = stock_delta 5 (pos 4) ∷ stock_delta 5 (negsuc 1) ∷ stock_delta 77 (pos 1) ∷ []

apply_deltas-perm_example :
    moves_on_hand (apply_deltas movements branch forward []) 5 8
    ≡ moves_on_hand (apply_deltas movements branch backward []) 5 8
apply_deltas-perm_example =
    apply_deltas-perm movements branch forward backward []
      (Perm.trans (Perm.cons _ (Perm.swap _ _ [])) (Perm.swap _ _ _)) 5 8

abbrev guest_points : ℕ → ℤ → LoyaltyPayload
guest_points p n = record { partner_id = some p; points = some n }

abbrev club : Loyalty
club = record { cards = record { partner = 4; points = pos 10 } ∷ []; history = [] }

abbrev txns : List LoyaltyPayload
txns = guest_points 4 (pos 5) ∷ guest_points 6 (negsuc 2) ∷ []

abbrev txns_back : List LoyaltyPayload
txns_back = guest_points 6 (negsuc 2) ∷ guest_points 4 (pos 5) ∷ []

apply_txns-balance_example :
    (balance 4 (apply_txns (λ p. true) true txns club).cards
        -ℤ history_sum 4 (apply_txns (λ p. true) true txns club).history
      ≡ pos 10)
    × (balance 4 (apply_txns (λ p. true) true txns club).cards
        ≡ balance 4 (apply_txns (λ p. true) true txns_back club).cards)
unfolding ◌-ℤ◌
apply_txns-balance_example =
    apply_txns-balance (λ p. true) true txns txns_back club 4 (Perm.swap _ _ [])

abbrev shop : Shop (List (ℕ × ℕ × ℤ)) ℤ
shop = record {
  engine = movements;
  partner_exists = λ p. true;
  has_program = true;
  first_method = λ c. some 2;
  open_session = λ c. some 3;
  base_incl = λ c p ls. some (pos 100, pos 114);
  sync_from_ui =
      λ d os. some (record { id = 40 + length os; uuid = d.uuid; pos_reference = unset } ∷ os);
  payload_of = λ e. none;
}

abbrev terminal : Terminal
terminal = record { identifier = "term-0123456789"; branch = branch }

abbrev sale : SalePayload ℤ
sale = record { partner_id = none; lines = pos 1 ∷ []; payments = []; pos_reference = none }

abbrev empty_world : World (List (ℕ × ℕ × ℤ))
empty_world = record { orders = []; stock = []; loyalty = club }

abbrev sold_world : World (List (ℕ × ℕ × ℤ))
sold_world = record empty_world {
  orders =
      record {
        id = 40;
        uuid = "u1";
        pos_reference =
            minted 1 (0x32 ∷ 0x33 ∷ 0x34 ∷ 0x35 ∷ 0x36 ∷ 0x37 ∷ 0x38 ∷ 0x39 ∷ []) (pos 9);
      }
      ∷ [];
}

apply_sale_again_example :
    apply_sale shop terminal "u1" (pos 2) sale sold_world ≡ result skipped none (some 40) sold_world
unfolding apply_sale
apply_sale_again_example =
    apply_sale_again shop terminal terminal "u1" (pos 9) (pos 2) sale sale empty_world sold_world
      applied none (some 40) refl

-- Two rows of one second, and one of the next.
abbrev table : List Pull.Row
table =
    record { id = 3; active = true; write_date = 12400000 }
    ∷ record { id = 1; active = false; write_date = 12500000 }
    ∷ record { id = 2; active = true; write_date = 13100000 }
    ∷ []
