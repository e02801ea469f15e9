-- ===== src/Tools/History.antt =====
-- src/agents/tools/trade_history_tool.py. Rows come from the query, newest first.
use coin_pilot.Base.{ℕ, Bool, true, false, Option, none, some, List, [], ◌∷◌, length, if◌then◌else◌}
use coin_pilot.Base.Result.{Result, ok, ◌>>=◌, or_raise, zero_division}
use coin_pilot.Base.Text.{Text, codes}
use coin_pilot.Number.{Number, whole, ◌⊖◌, ◌⊗◌, ◌⊘◌, ◌≺◌}
use coin_pilot.Store.{Side}
use coin_pilot.Tools.Market.{Answer, no_data, found}

-- A filled order. `_to_float` gives `none` for a value it cannot read.
pub record FilledRow (F : Type 0) : Type 0 where
  pub filled_at_kst : Text
  pub symbol : Text
  pub side : Side
  pub price : Option F
  pub quantity : Option F
  pub entry_avg_price : Option F
  pub regime : Text
  pub exit_reason : Text

pub record SellView (F : Type 0) : Type 0 where
  pub row : FilledRow F
  pub realized_pnl : Option (F × F)

pub record TradeHistory (F : Type 0) : Type 0 where
  pub filled_count : ℕ
  pub sell_count : ℕ
  pub last_sell : Option (SellView F)

abbrev is_sell : Side → Bool
is_sell Side.sell = true
is_sell Side.buy = false

abbrev first_view : {F : Type 0} → List (SellView F) → Option (SellView F)
first_view [] = none
first_view (v ∷ views) = some v

module _ {F : Type 0} ⦃n : Number F⦄ where
  -- The profit in KRW and in percent, where the average price of the entry is known.
  abbrev realized : Option F → Option F → Option F → Result (Option (F × F))
  realized (some price) (some qty) (some entry) =
      if whole 0 ≺ entry
      then (do
        q ← or_raise ((price ⊖ entry) ⊘ entry) zero_division
        ok (some ((price ⊖ entry) ⊗ qty, q ⊗ whole 100)))
      else ok none
  realized _ _ _ = ok none

  unfoldable pub build_sell_view : FilledRow F → Result (SellView F)
  build_sell_view row = do
    pnl ← realized row.price row.quantity row.entry_avg_price
    ok (record { row = row; realized_pnl = pnl })

  unfoldable pub sell_views : List (FilledRow F) → Result (List (SellView F))
  unfolding build_sell_view
  sell_views [] = ok []
  sell_views (row ∷ rows) =
      let later = sell_views rows in
      if is_sell row.side then (do v ← build_sell_view row; rest ← later; ok (v ∷ rest)) else later

  unfoldable pub run_trade_history_tool : List (FilledRow F) → Result (Answer (TradeHistory F))
  unfolding sell_views
  run_trade_history_tool [] = ok (no_data (codes "체결 내역이 없어 마지막 SELL 정보를 확인할 수 없습니다."))
  run_trade_history_tool (row ∷ rows) = do
    sells ← sell_views (row ∷ rows)
    ok (
        found (record {
          filled_count = length (row ∷ rows);
          sell_count = length sells;
          last_sell = first_view sells;
        }))
