-- ===== src/Paper/Repository.antt =====
-- The storage of backend/app/paper/repository.py, as `InMemoryPaperRepository` keeps it. A payload
-- is the outcome that it is rendered from.
use trader_ai.Common.{
  ℕ, ◌+◌, String, Bool, true, false, ◌&&◌, ◌||◌, Option, none, some, List, [], ◌∷◌, ◌++◌, str_eq,
  ltb, leb, nat_eq, if◌then◌else◌, is_some, length, take, keep_if, any_of, count_if,
  text_comparable, number_comparable, contains, ℤ, ist_date,
}
use trader_ai.Paper.Schemas.{
  CompletedBar, PaperMode, PaperExitReason, PaperSignal, EntryStatus, PaperSimulationResult,
  data_ended, not_created, entry_filled, entry_no_fill,
}
use trader_ai.Paper.Simulator.{candidate, sort_bars}

pub data Side : Type 0 where
  buy sell : Side

pub data OrderType : Type 0 where
  limit paper_exit : OrderType

pub data OrderStatus : Type 0 where
  entry_status : EntryStatus → OrderStatus
  exit_filled : OrderStatus

pub record Order : Type 0 where
  pub id : ℕ
  pub signal_id : ℕ
  pub simulated : Bool
  pub side : Side
  pub order_type : OrderType
  pub quantity : ℤ
  pub limit_price : Option ℤ
  pub status : OrderStatus

pub record OrderEvent : Type 0 where
  pub order_id : ℕ
  pub event_type : OrderStatus
  pub payload : PaperSimulationResult

-- PAPER_CLOSED and PAPER_DATA_ENDED.
pub data TradeStatus : Type 0 where
  closed ended : TradeStatus

pub record Trade : Type 0 where
  pub id : ℕ
  pub signal_id : ℕ
  pub simulated : Bool
  pub entry_order_id : ℕ
  pub exit_order_id : Option ℕ
  pub quantity : ℤ
  pub entry_price : Option ℤ
  pub exit_price : Option ℤ
  pub exit_reason : PaperExitReason
  pub gross_pnl : ℤ
  pub estimated_costs : ℤ
  pub net_pnl : ℤ
  pub paper_mode : PaperMode
  pub status : TradeStatus

pub record JournalEntry : Type 0 where
  pub payload : PaperSimulationResult
  pub signal_time : ℕ
  pub strategy_version : String

pub record Store : Type 0 where
  pub signals : List PaperSignal
  pub candles_by_symbol : List (String × List CompletedBar)
  pub orders : List Order
  pub order_events : List OrderEvent
  pub trades : List Trade
  pub journal : List JournalEntry

-- `sorted(loaded, key=lambda signal: (signal.signal_time, signal.id))`
abbrev pub signal_le : PaperSignal → PaperSignal → Bool
signal_le s t =
    ltb s.signal_time t.signal_time || (nat_eq s.signal_time t.signal_time && leb s.id t.id)

abbrev pub insert_signal : PaperSignal → List PaperSignal → List PaperSignal
insert_signal s [] = s ∷ []
insert_signal s (t ∷ ts) =
    let later = t ∷ insert_signal s ts in if signal_le s t then s ∷ t ∷ ts else later

abbrev pub sort_signals : List PaperSignal → List PaperSignal
sort_signals [] = []
sort_signals (s ∷ ss) = insert_signal s (sort_signals ss)

abbrev pub matches : Option String → Option ℕ → Option ℕ → PaperSignal → Bool
matches symbol start stop s =
    str_eq s.signal_status candidate
    && (elim symbol [ none ↦ true | some name ↦ str_eq s.symbol name ]
        && (elim start [ none ↦ true | some t ↦ leb t s.signal_time ]
            && elim stop [ none ↦ true | some t ↦ leb s.signal_time t ]))

unfoldable pub load_candidate_signals :
    Store → Option String → Option ℕ → Option ℕ → ℕ → List PaperSignal
load_candidate_signals store symbol start stop bound =
    take bound (sort_signals (keep_if (matches symbol start stop) store.signals))

-- `self.candles_by_symbol.get(symbol, [])`
abbrev pub candles_of : String → List (String × List CompletedBar) → List CompletedBar
candles_of symbol [] = []
candles_of symbol ((name, cs) ∷ rest) = if str_eq name symbol then cs else candles_of symbol rest

unfoldable pub load_candles : Store → String → ℕ → ℕ → ℕ → List CompletedBar
load_candles store symbol start stop bound = take bound (
    sort_bars (
      keep_if
        (λ (c : CompletedBar).
          str_eq c.timeframe "1minute" && (leb start c.started_at && leb c.started_at stop))
        (candles_of symbol store.candles_by_symbol)))

unfoldable pub paper_trade_exists : Store → ℕ → Bool
paper_trade_exists store signal_id =
    any_of (λ (t : Trade). nat_eq t.signal_id signal_id && t.simulated) store.trades

-- The ids of the signals of one session day.
abbrev pub ids_of_day : ℕ → List PaperSignal → List ℕ
ids_of_day day [] = []
ids_of_day day (s ∷ ss) =
    let rest = ids_of_day day ss in
    if nat_eq (ist_date s.signal_time) day then s.id ∷ rest else rest

unfoldable pub count_paper_trades_for_day : Store → ℕ → ℕ
count_paper_trades_for_day store signal_time =
    let signal_ids = ids_of_day (ist_date signal_time) store.signals in
    count_if (λ (t : Trade). contains t.signal_id signal_ids) store.trades

-- `_has_entry_attempt`
abbrev pub has_entry_attempt : PaperSimulationResult → Bool
has_entry_attempt outcome = elim outcome.entry_order_status [
  | entry_filled ↦ true
  | entry_no_fill ↦ true
  | not_created ↦ false
]

-- `_trade_status`
abbrev pub trade_status : PaperExitReason → TradeStatus
trade_status data_ended = ended
trade_status _ = closed

abbrev pub entry_order : ℕ → PaperSignal → PaperSimulationResult → Order
entry_order id signal outcome = record {
  id = id;
  signal_id = signal.id;
  simulated = true;
  side = buy;
  order_type = limit;
  quantity = outcome.quantity;
  limit_price = outcome.entry_reference_price;
  status = entry_status outcome.entry_order_status;
}

abbrev pub exit_order : ℕ → PaperSignal → PaperSimulationResult → Order
exit_order id signal outcome = record {
  id = id;
  signal_id = signal.id;
  simulated = true;
  side = sell;
  order_type = paper_exit;
  quantity = outcome.quantity;
  limit_price = outcome.exit_price;
  status = exit_filled;
}

abbrev pub event_of : Order → PaperSimulationResult → OrderEvent
event_of order outcome = record {
  order_id = order.id;
  event_type = order.status;
  payload = outcome;
}

abbrev pub place : Order → PaperSimulationResult → Store → Store
place order outcome store = record store {
  orders = store.orders ++ order ∷ [];
  order_events = store.order_events ++ event_of order outcome ∷ [];
}

abbrev pub is_filled : EntryStatus → Bool
is_filled entry_filled = true
is_filled _ = false

abbrev pub has_exit : PaperSimulationResult → Bool
has_exit outcome = is_filled outcome.entry_order_status && is_some outcome.exit_price

abbrev pub trade_of : ℕ → PaperSignal → PaperSimulationResult → ℕ → Option ℕ → Trade
trade_of id signal outcome entry_order_id exit_order_id = record {
  id = id;
  signal_id = signal.id;
  simulated = true;
  entry_order_id = entry_order_id;
  exit_order_id = exit_order_id;
  quantity = outcome.quantity;
  entry_price = outcome.entry_fill_price;
  exit_price = outcome.exit_price;
  exit_reason = outcome.exit_reason;
  gross_pnl = outcome.gross_pnl;
  estimated_costs = outcome.estimated_costs;
  net_pnl = outcome.net_estimated_pnl;
  paper_mode = outcome.paper_mode;
  status = trade_status outcome.exit_reason;
}

abbrev pub add_trade : Trade → Store → Store
add_trade trade store = record store { trades = store.trades ++ trade ∷ [] }

-- The part of `record_paper_outcome` for a created trade, after its entry order.
abbrev pub record_trade : PaperSignal → PaperSimulationResult → ℕ → Store → Store
record_trade signal outcome entry_order_id store =
    let exit_order_id = length store.orders + 1 in
    let trade_id = length store.trades + 1 in
    if has_exit outcome
    then add_trade (trade_of trade_id signal outcome entry_order_id (some exit_order_id))
        (place (exit_order exit_order_id signal outcome) outcome store)
    else add_trade (trade_of trade_id signal outcome entry_order_id none) store

abbrev pub record_attempt : PaperSignal → PaperSimulationResult → Store → Store
record_attempt signal outcome store =
    let entry_order_id = length store.orders + 1 in
    let placed = place (entry_order entry_order_id signal outcome) outcome store in
    if has_entry_attempt outcome
    then (if outcome.trade_created
        then record_trade signal outcome entry_order_id placed
        else placed)
    else store

abbrev pub journal_entry : PaperSignal → PaperSimulationResult → JournalEntry
journal_entry signal outcome = record {
  payload = outcome;
  signal_time = signal.signal_time;
  strategy_version = signal.strategy_version;
}

abbrev pub add_journal : PaperSignal → PaperSimulationResult → Store → Store
add_journal signal outcome store = record store {
  journal = store.journal ++ journal_entry signal outcome ∷ [];
}

-- `none` is `DuplicatePaperTradeError`, raised before anything is written.
unfoldable pub record_paper_outcome : Store → PaperSignal → PaperSimulationResult → Option Store
record_paper_outcome store signal outcome =
    if outcome.trade_created && paper_trade_exists store signal.id
    then none
    else some (add_journal signal outcome (record_attempt signal outcome store))
