-- ===== src/Lib.antt =====
-- A verification library for bulldog, a heads-up poker agent: a core (game definition, hands,
-- cards), an engine that trains and plays strategies, and agents that connect it to tables. The
-- core's game engine, modules/core/src/game.c, is what the others rely on: every connector, the
-- abstract-game builder and the training workers create hands with initState, test actions with
-- isValidAction and carry them out with doAction.
--
-- Parts and files:
--   Game: modules/core/include/bulldog/game.h. The structs Game, State and Action as records,
--     with the names of their fields in snake_case; arrays are functions of the index, which have
--     no end: the theorems on dealing and on the text protocol ask that the game fits the arrays
--     (FitsArrays), since readGame does not test MAX_BOARD_CARDS.
--   Betting: the functions of game.c that read a hand: bcStart, sumBoardCards, nextPlayer,
--     currentPlayer, numRaises, numFolded, numCalled, numAllIn, numActingPlayers, raiseIsValid,
--     isValidAction. Betting/Rules states the rules of betting (Legal), with the code's own count
--     of raises; a raise in a limit game has no rule on its size there.
--   Hand: the functions that change it, initState and doAction, split as the code is:
--     log_action, place_bet and end_turn for doAction, init_player and the loops for initState.
--     Betting/Invariant states what holds between two actions (IsValid), and Hand/Play takes whole
--     hands as sequences of turns.
--   Payoff: valueOfState of game.c, what a finished hand is worth to a player, with its loop
--     over the side pots. The rank of a hand, rankHand over the tables of evalHandTables, is a
--     parameter. A value is a pair of what is won and what is lost, in 2520ths of a chip in place
--     of `double`: with at most ten players (MAX_PLAYERS) each share is then a whole number. The
--     loop takes as fuel one round for each player in the list, which is enough since each side
--     pot ends for one of them at least.
--   Cards: makeCard of game.h, dealCard, dealCards, checkUsed and dealRemainingCards of game.c,
--     and IsStateCardsValid of modules/core/src/game_util.cpp. The results of genrand_int32 are a
--     parameter, one number for each call; the loops are over the local arrays and those of the
--     state, as in the code. A std::set is a list without doubles.
--   History: the log of a hand. TotalAction, GetLastActionFromState, StepBackAction and
--     StateTableInfoCopy, and the comparisons StateEqual, matchStatesEqual and InSameMatch of
--     game.c, with StateBettingEqual, IsPriorStateSameRound and WithEarlyRaiseAction of
--     modules/core/src/game_util.cpp. History/Same is the relation of two states that agree on the
--     betting, which doAction and isValidAction respect; History/Log says how the log grows.
--   Text: the text protocol of game.c, from readCard and printAction up to readState, printState
--     and the MATCHSTATE variants. A text is the list of its characters. A function that reads
--     returns the rest of the text for the count of characters it has consumed. The conversions of
--     numbers (snprintf, sscanf, strtol) are the parameter Numbers; Text/Decimal is one. The loop
--     of readBetting takes as fuel one round for each character and one more, which is enough
--     since each round consumes a character.
--   Queries: the questions at the end of game.c: Equal, CompatibleGame, BigBlind and
--     BigBlindPosition, the stack depths, PotStake, SumBettingPatternDiff and GetRaiseBase, with
--     GetTotalPot of game_util.cpp. What GetRaiseBase subtracts in int32_t is an integer, ℤ,
--     there.
--   Training: what the engine takes a finished hand of two players to be worth: IsTerminal,
--     IsShowdown and GetStake of modules/engine/src/node.cpp, the payoff flags of HandInfo in
--     modules/engine/src/cfr_worker.h and EvalTermNode of
--     modules/engine/src/cfr_worker_scalar.cpp. It stands on PotStake of the core; the ranks of
--     the two hands are an argument. Its `double` result is a whole number of chips.
--   Tables: the buttons of a table: TableActionToAction and IsTableActionPresent of
--     modules/core/src/table_util.cpp, which ask isValidAction and GetRaiseBase of game.c. The
--     arithmetic on `double` for the size of a raise is the parameter `times`. ActionToTableAction
--     and MapToTableAction are left out.
--   Holdem: hands of two cards: Board_t of modules/core/include/bulldog/card_util.h, and
--     ToVectorIndex, FromVectorIndex, VectorIdxClash and VectorIdxClashCard of
--     modules/core/src/card_util.cpp. The rounded square root is the whole number next to it;
--     cards are of type uint8_t and indices of type uint16_t, which wrap around. Kernel stands on
--     it.
--   Kernel: TermEvalKernel of modules/engine/src/term_eval_kernel.h and term_eval_kernel.cpp,
--     which values all hands at a terminal node of the training tree: FastFoldEval with
--     StackFoldingProb (Kernel/FoldEval) and FastShowdownEval (Kernel/ShowdownEval) with
--     StackShowdownProb (Kernel/StackEval), and NaiveFoldEval and NaiveShowdownEval, which mean to
--     compute the same. Kernel/Prepare is Prepare with Sort and PreStack: the ranks of RankHand
--     and std::sort are parameters there, and IsSorted is what PreStack starts from. A `double` is
--     a whole number, ℤ, of some unit, of which `one` make 1.0: sums are exact and rounding is not
--     modelled. The rows of a card, an endless loop that stops at the flag -1, take as fuel the
--     rows of the array, which is enough for a card with hands of fewer than 46 ranks; with more
--     the code reads past the array.
--   Prelude: C arrays, counted loops, tests, and Option for a call that does not return.
--
-- Choices. A counted loop is `loop n body s`, the state after n rounds. The loop of nextPlayer
-- takes fuel, one round for each player; with someone who can act that is enough, and with
-- nobody no fuel is. Failed assertions, exit and endless loops are `none`. Counters of type
-- uint8_t keep their wrap-around (`% 256`). Chip counts and raise sizes (int32_t) are natural
-- numbers: a negative size in a message is below every least raise, so it takes the branch of a
-- size that is too small. Overflow of int32_t is not modelled in the engine: sizes of at most 2
-- ^ 30 stay below it.
--
-- Not modelled: hand ranking tables, what is left of a state when reading it fails, the files of
-- game definitions, the rest of the engine, the vendored libraries and servers, network code,
-- logging.
pub mod Prelude
pub mod Game
pub mod Betting
pub mod Hand
pub mod Payoff
pub mod Cards
pub mod History
pub mod Text
pub mod Queries
pub mod Training
pub mod Tables
pub mod Holdem
pub mod Kernel
