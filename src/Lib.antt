-- ===== src/Lib.antt =====
-- CoinPilot: a bot that trades coins on paper by rules, with a check by AI agents before each buy.
--
-- The trading loop of src/bot/main.py takes each symbol in turn. It asks the strategy of
-- src/engine/strategy.py for a signal on the indicators of src/common/indicators.py, has the risk
-- manager of src/engine/risk_manager.py check a buy, has the executor of src/engine/executor.py
-- fill the order in the tables of src/common/models.py, and tells the risk manager what a sale has
-- brought. A buy reaches the AI agents only through the filters of src/agents/context_features.py
-- and the limits of src/agents/guardrails.py; src/agents/runner.py then runs the analyst and the
-- guardian of the agents and keeps their verdict. After a sale src/analytics/post_exit_tracker.py
-- follows the price. Beside the loop, the chat of src/agents/router.py answers a person's questions
-- about the bot with the tools of src/agents/tools, some of which read the news that
-- src/agents/news/rss_news_pipeline.py collects.
--
-- Which file models which part:
--   Strategy.Config    the settings of a regime, src/config/strategy.py; Strategy.Defaults has the
--                      regimes that StrategyConfig starts from
--   Strategy.Entry     evaluate_entry_conditions and check_entry_signal of src/engine/strategy.py
--   Strategy.Trailing  TrailingStop of src/engine/strategy.py
--   Strategy.Exit      get_adjusted_exit_config and check_exit_signal of src/engine/strategy.py
--   Indicators         detect_regime and check_bb_touch_recovery of src/common/indicators.py
--   Store              the tables of src/common/models.py
--   Risk               RiskManager of src/engine/risk_manager.py; Risk.Day runs any sequence of its
--                      two operations that change the state of a day
--   Executor           PaperTradingExecutor of src/engine/executor.py
--   Redis              what the code uses of Redis, a parameter, with the laws it relies on
--   Guardrails         src/agents/guardrails.py
--   Prefilter          should_run_ai_analysis of src/agents/context_features.py
--   ExitPerformance    the entry lots, the buckets and the suggestions of
--                      src/analytics/exit_performance.py
--   Bot                the round of a symbol in bot_loop of src/bot/main.py, and any sequence of rounds
--   Agents             the model that a check runs on and its canary (src/agents/factory.py), the
--                      candles and the guard of the analyst (src/agents/analyst.py), and the order of
--                      the nodes with what is kept of them (src/agents/guardian.py, src/agents/runner.py)
--   PostExit           the windows after a sale and the runs of src/analytics/post_exit_tracker.py
--   Chat               src/agents/router.py: the intent of a query, the limits on its length and its
--                      rate, the answers kept for a while, what is recalled of the dialogue, the
--                      nodes with the texts they write, and process_chat, which composes them
--   Rss                src/agents/news/rss_news_pipeline.py: the feeds parsed, the score of an article,
--                      the job that stores the articles, and the report of a symbol
--   Tools              the tools of src/agents/tools that the chat calls: risk, market, news, timing of
--                      a sale, portfolio, history, policy and the review of the strategy
--
-- Base holds what these share (lists, integers, results that may be exceptions, dictionaries,
-- texts, the environment), and Number what the code uses of its two types of numbers, with what it
-- formats and sums up of them. Each Tests module runs the definitions
-- above it on concrete inputs.
--
-- How the code is translated:
--   Numbers. `Decimal` and `float` are the parameters D and F with an instance of `Number`. The
--   laws that a proof uses are records of Number.Order (IsOrdered, IsSigned, IsCancelling and
--   IsScaling), for numbers that are finite. Number.Fixed has an instance with all of them, at
--   which the tests run.
--   In the trading loop symbols and dates are only compared, and are natural numbers; a time is a
--   number of microseconds, or of seconds where Redis counts in them; a text for a person is a
--   constructor there. In the chat, its tools and the agents a text is its list of code points.
--   The formats of a float, the statistics of pandas, the digest of SHA-256, the rows that a query
--   finds and what a model answers are parameters.
--   Requests to the chat that run side by side take a lock around their state: they are a sequence
--   of steps, in any order.
--   What Redis, the environment and the candles answer to the risk manager is a parameter of the
--   call, `none` where the value is missing, unreadable, or its service fails. What the AI agents
--   answer is a parameter of the order. The guardrails run over the operations of Redis, a
--   parameter with documented laws, which Redis.Table meets.
--   The clock is read once in a round of a symbol and once in a job, where the source reads it at
--   each step; so an item of a feed without a date has the time of the job.
--   The tables are passed on explicitly. What was written before an exception stays written, since
--   the exception is swallowed inside the session, which is committed later.
-- A loop is recursion on the list it goes through, but for the ones that match a sale against the
-- lots, in `_consume_entry` and in the review of the strategy, which may leave the first lot in
-- place: their fuel is a pass for each lot and one more, and is enough.
--
-- Not modelled: the rounding of a column when it is flushed, SQLAlchemy, Redis and pandas themselves,
-- the prompts and the calls of a model, the graph of the SQL agent, the log of what a model used,
-- notifications, metrics, the pages of the dashboard, and the scripts.
pub mod Agents
pub mod Base
pub mod Bot
pub mod Chat
pub mod Executor
pub mod ExitPerformance
pub mod Guardrails
pub mod Indicators
pub mod Number
pub mod PostExit
pub mod Prefilter
pub mod Redis
pub mod Risk
pub mod Rss
pub mod Store
pub mod Strategy
pub mod Tools
