-- ===== src/TxSender.antt =====
-- internal/submit/tx_sender.go: sends messages to Neutron in transactions of one account.
pub mod Gas
pub mod Sequence
use neutron_query_relayer.Prelude.{
  ℕ, ◌+◌, ◌%◌, Bool, true, false, ◌&&◌, Option, none, some, List, [], ◌∷◌, ◌++◌, Bytes, codes,
  contains, ltb, ◌==◌, if◌then◌else◌, u64,
}
use neutron_query_relayer.Errors.{
  Error, Result, ok, err, plain, wrap, context, message, ◌>>=◌ as ◌>>=r◌,
}
use neutron_query_relayer.Exec.{Exec, pure, raise, lift, wrapping, attempt, ◌>>=◌, ◌>>◌}

-- Go's float64 and LegacyDec, as far as the gas price needs them.
pub record Decimals (Float LegacyDec : Type 0) : Type 0 where
  pub to_float : LegacyDec → Result Float
  pub times : Float → Float → Float
  pub greater : Float → Float → Bool
  pub format : Float → Bytes

-- the response of an ABCI query
pub record Response : Type 0 where
  pub code : ℕ
  pub value : Bytes
  pub log : Bytes

pub record BaseAccount : Type 0 where
  pub account_number : ℕ
  pub sequence : ℕ

-- a tx.Factory: what the sender sets on it
pub record Factory : Type 0 where
  pub account_number : ℕ
  pub sequence : ℕ
  pub gas_prices : Bytes
  pub gas : ℕ

pub record BroadcastResult : Type 0 where
  pub code : ℕ
  pub log : Bytes

-- The constants of the struct, and the calls of other code: the keyring, the RPC client, the
-- protobuf codecs, and the building and signing of transactions.
pub record Env (W Msg Float LegacyDec : Type 0) : Type 0 where
  pub decimals : Decimals Float LegacyDec
  pub default_gas_prices : Bytes
  pub gas_limit : ℕ
  pub denom : Bytes
  pub max_gas_price : Float
  pub gas_price_multiplier : Float
  -- the signing key of the keyring, and the print of its address
  pub key : Result Bytes
  pub get_address : Bytes → Result Bytes
  pub marshal_account_request : Bytes → Result Bytes
  pub marshal_price_request : Bytes → Result Bytes
  pub abci_query : Bytes → Bytes → Exec W Response
  pub unmarshal_account_response : Bytes → Result Bytes
  pub unmarshal_account : Bytes → Result BaseAccount
  pub unmarshal_price : Bytes → Result LegacyDec
  pub base_factory : Factory
  -- the one empty signature, with a sequence
  pub set_signatures : Bytes → ℕ → Result Bytes
  pub marshal_simulate_request : Bytes → Result Bytes
  -- the gas info of a simulate response, if it has one
  pub unmarshal_simulation : Bytes → Result (Option ℕ)
  -- uint64(txf.GasAdjustment() * float64(gasUsed))
  pub adjust_gas : ℕ → ℕ
  pub build_unsigned_tx : Factory → List Msg → Result Bytes
  pub sign : Factory → Bytes → Result Bytes
  pub encode_tx : Bytes → Result Bytes
  pub broadcast_tx_sync : Bytes → Exec W BroadcastResult
  pub tx_hash : Bytes → Bytes

-- The sender's account as it knows it, and the world that it talks to. The lock makes each `Send`
-- one step.
pub record TxSender (W : Type 0) : Type 0 where
  pub sequence : ℕ
  pub account_number : ℕ
  pub world : W

abbrev pub account_query_path : Bytes
account_query_path = codes "/cosmos.auth.v1beta1.Query/Account"

abbrev pub simulate_query_path : Bytes
simulate_query_path = codes "/cosmos.tx.v1beta1.Service/Simulate"

abbrev pub get_prices_query_path : Bytes
get_prices_query_path = codes "/feemarket.feemarket.v1.Query/GasPrice"

abbrev pub incorrect_account_sequence_code : ℕ
incorrect_account_sequence_code = 32

module _ {W Msg Float LegacyDec : Type 0} (env : Env W Msg Float LegacyDec) where
  -- a call of the world from the sender
  abbrev pub out : {A : Type 0} → Exec W A → Exec (TxSender W) A
  out m txs = let (res, w) = m txs.world in (res, record txs { world = w })

  unfoldable pub sender_addr : Result Bytes
  sender_addr = context (codes "could not fetch sender info from keychain") env.key >>=r λ info.
      context (codes "failed to get addr from pubkey") (env.get_address info)

  check_account : Response → Result (Unit {0})
  check_account res =
      if res.code == 0 then ok tt else err (plain (codes "error fetching account with address"))

  pub query_account : Bytes → Exec W BaseAccount
  unfolding check_account
  query_account address = do
    req ←
        wrapping (codes "error marshalling query account request")
          (lift (env.marshal_account_request address))
    res ←
        wrapping (codes "error making abci query for account")
          (env.abci_query account_query_path req)
    lift (check_account res)
    response ←
        wrapping (codes "error unmarshalling QueryAccountResponse")
          (lift (env.unmarshal_account_response res.value))
    wrapping (codes "error unmarshalling BaseAccount") (lift (env.unmarshal_account response))

  store_account : BaseAccount → Exec (TxSender W) (Unit {0})
  store_account account txs =
      (ok tt, record txs { account_number = account.account_number; sequence = account.sequence })

  pub refresh_account_info : Exec (TxSender W) (Unit {0})
  unfolding sender_addr store_account
  refresh_account_info = do
    address ← wrapping (codes "could not fetch sender addr") (lift sender_addr)
    account ← wrapping (codes "error fetching account") (out (query_account address))
    store_account account

  -- what the constructor returns after its read of the account
  created : Result (Unit {0}) × TxSender W → Result (TxSender W) × W
  created (ok _, txs) = (ok txs, txs.world)
  created (err e, txs) = (err e, txs.world)

  -- the sender's constants are in `env`
  unfoldable pub new_tx_sender : Exec W (TxSender W)
  unfolding created refresh_account_info
  new_tx_sender w = created (
      wrapping (codes "failed to init tx sender") refresh_account_info
        (record { sequence = 0; account_number = 0; world = w }))

  check_price : Response → Result (Unit {0})
  check_price res =
      if res.code == 0 then ok tt else err (plain (codes "error fetching feemarket gas price"))

  pub query_dynamic_price : Exec W LegacyDec
  unfolding check_price
  query_dynamic_price = do
    req ←
        wrapping (codes "error marshalling query gas prices request")
          (lift (env.marshal_price_request env.denom))
    res ← wrapping (codes "error making abci query") (env.abci_query get_prices_query_path req)
    lift (check_price res)
    wrapping (codes "error unmarshalling GasPriceResponse") (lift (env.unmarshal_price res.value))

  -- the multiplied price, at most the maximum
  pub capped : Float → Float
  capped float_gas =
      let multiplied_gas = env.decimals.times env.gas_price_multiplier float_gas in
      if env.decimals.greater multiplied_gas env.max_gas_price
      then env.max_gas_price
      else multiplied_gas

  pub multiply_gas : LegacyDec → Result Bytes
  unfolding capped
  multiply_gas gas = elim (env.decimals.to_float gas) [
    | ok float_gas ↦ ok (env.decimals.format (capped float_gas))
    | err e ↦ err e
  ]

  price_of : Result LegacyDec → Result Bytes
  price_of (err e) = ok env.default_gas_prices
  price_of (ok gas_price) = elim (multiply_gas gas_price) [
    | ok multiplied_gas ↦ ok (multiplied_gas ++ env.denom)
    | err e ↦ err e
  ]

  pub get_gas_price : Exec W Bytes
  unfolding multiply_gas price_of query_dynamic_price
  get_gas_price = do gas_price ← attempt query_dynamic_price; lift (price_of gas_price)

  pub build_simulation_tx : Factory → List Msg → Result Bytes
  build_simulation_tx txf msgs =
      context (codes "error building unsigned tx for simulation")
        (env.build_unsigned_tx env.base_factory msgs)
      >>=r λ txb.
          context (codes "error settings signatures for simulation")
            (env.set_signatures txb txf.sequence)
          >>=r λ signed.
              context (codes "error encoding transaction") (env.encode_tx signed) >>=r λ bz.
              env.marshal_simulate_request bz

  simulated_gas : Option ℕ → Result ℕ
  simulated_gas none = err (plain (codes "no result in simulation response"))
  simulated_gas (some gas_used) = ok (env.adjust_gas gas_used)

  pub calculate_gas : Factory → List Msg → Exec W ℕ
  unfolding simulated_gas build_simulation_tx
  calculate_gas txf msgs = do
    simulation ←
        wrapping (codes "error building simulation tx") (lift (build_simulation_tx txf msgs))
    res ←
        wrapping (codes "error making abci query for gas calculation")
          (env.abci_query simulate_query_path simulation)
    gas_info ←
        wrapping (codes "error unmarshalling simulate response value")
          (lift (env.unmarshal_simulation res.value))
    lift (simulated_gas gas_info)

  pub sign_and_build_tx_bz : Factory → List Msg → Exec W Bytes
  sign_and_build_tx_bz txf msgs = do
    tx_builder ←
        wrapping (codes "failed to build transaction builder")
          (lift (env.build_unsigned_tx txf msgs))
    signed ← wrapping (codes "error signing transaction") (lift (env.sign txf tx_builder))
    lift (env.encode_tx signed)

  -- what `Send` does with an error of the gas calculation
  pub gas_or_refresh : Result ℕ → Exec (TxSender W) ℕ
  gas_or_refresh (ok gas_needed) = pure gas_needed
  gas_or_refresh (err e) =
      if contains (message e) (codes "incorrect account sequence")
      then (do
        wrapping (codes "error calculating gas: failed to reinit sender") refresh_account_info
        raise (wrap (codes "error calculating gas") e))
      else raise (wrap (codes "error calculating gas") e)

  bump_sequence : Exec (TxSender W) (Unit {0})
  bump_sequence txs = (ok tt, record txs { sequence = (txs.sequence + 1) % u64 })

  -- what `Send` does with the answer to the broadcast
  pub after_broadcast : Bytes → BroadcastResult → Exec (TxSender W) Bytes
  unfolding bump_sequence
  after_broadcast bz res =
      if res.code == 0
      then (do bump_sequence; pure (env.tx_hash bz))
      else if res.code == incorrect_account_sequence_code
      then (do
        wrapping (codes "error broadcasting sync transaction: failed to reinit sender")
            refresh_account_info
        raise (plain (codes "error broadcasting sync transaction: log=" ++ res.log)))
      else raise (plain (codes "error broadcasting sync transaction: log=" ++ res.log))

  check_limit : ℕ → Exec (TxSender W) (Unit {0})
  check_limit gas_needed =
      if ltb 0 env.gas_limit && ltb env.gas_limit gas_needed
      then raise (plain (codes "exceeds gas limit"))
      else pure tt

  abbrev pub factory : Bytes → TxSender W → Factory
  factory gas_price txs = record env.base_factory {
    account_number = txs.account_number;
    sequence = txs.sequence;
    gas_prices = gas_price;
  }

  make_factory : Bytes → Exec (TxSender W) Factory
  make_factory gas_price txs = (ok (factory gas_price txs), txs)

  broadcast : Bytes → Exec (TxSender W) Bytes
  unfolding after_broadcast
  broadcast bz = do
    res ← wrapping (codes "error broadcasting sync transaction") (out (env.broadcast_tx_sync bz))
    after_broadcast bz res

  -- `Send` from the check of the gas limit on
  submit : Factory → List Msg → ℕ → Exec (TxSender W) Bytes
  unfolding check_limit broadcast sign_and_build_tx_bz
  submit txf msgs gas_needed = do
    check_limit gas_needed
    bz ←
        wrapping (codes "could not sign and build tx bz")
          (out (sign_and_build_tx_bz (record txf { gas = gas_needed }) msgs))
    broadcast bz

  unfoldable pub send : List Msg → Exec (TxSender W) Bytes
  unfolding gas_or_refresh make_factory submit get_gas_price calculate_gas
  send msgs = do
    gas_price ← wrapping (codes "error requesting feemarket gas price") (out get_gas_price)
    txf ← make_factory gas_price
    calculated ← attempt (out (calculate_gas txf msgs))
    gas_needed ← gas_or_refresh calculated
    submit txf msgs gas_needed
