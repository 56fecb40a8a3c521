-- ===== src/Lib.antt =====
-- bignftd: two modules of the chain, x/tokenfactory and x/wasm as far as it stores codes and
-- contracts, calls them, and prices, guards and dispatches what they do.
--
-- Base and Chain are shared. Base has bytes as numbers and texts as lists of bytes. Chain.Outcome
-- is how a Go call ends (a value, an error, a panic) and how calls that change a state are chained:
-- what was written before an error stays written, as in the source, where the caller rolls back.
-- Chain.Store is a key-value store in key order, Chain.Sorted what an iterator over a prefix sees
-- of it, Chain.Keeps the calculus of invariants, Chain.Lands, Chain.Yields and Chain.Returns those
-- of what calls that succeed have done and return, and Chain.Sdk the interface of the Cosmos SDK
-- and the bank as the token factory sees them (x/tokenfactory/types/expected_keepers.go). Their
-- code is not in the repository: it is a parameter, with the laws that proofs use as records
-- (CodecLaws, AddressLaws, MetadataLaws, CoinLaws).
--
-- TokenFactory models x/tokenfactory: Denoms (types/denoms.go), State (keys, parameters,
-- capabilities, the keeper's state), Keeper (keeper/admins.go, bankactions.go, creators.go),
-- CreateDenom (keeper/createdenom.go), Messages (types/msgs.go), MsgServer (keeper/msg_server.go),
-- Genesis (keeper/genesis.go, types/genesis.go), Queries (keeper/grpc_query.go,
-- bindings/queries.go), Bindings (bindings/message_plugin.go: what a contract may send). Handle has
-- all messages in one type, and below it the proofs: Refusal, Creation, Create, Handover,
-- Described, and Renounced with the states that successful messages reach. A message goes from its
-- stateless check to its handler, the handler to the keeper, and a contract's message through the
-- bindings to the same handlers.
--
-- Wasm models x/wasm: Gas (types/gas_register.go, in uint64 arithmetic with the wrap-around written
-- out), Access (types/params.go, types/types.go, types/validation.go), Policy
-- (keeper/authz_policy.go), Position and Contract (types/types.go), Keys (types/keys.go), Events
-- (keeper/events.go), Ante (keeper/ante.go), Archive (ioutils) and Dispatcher
-- (keeper/msg_dispatcher.go). The dispatcher takes the messenger, the reply entry point, the gas
-- meter and the errors as a parameter, and so its theorems hold for every contract; MeterLaws says
-- what they ask of the SDK's meters.
--
-- Wasm.Keeper models keeper/keeper.go and keeper/addresses.go. Platform holds what the keeper
-- stands on: the virtual machine, the codec, the accounts, the bank, the ports and the gas meters
-- are parameters, and a Context is what the keeper reads and changes of `sdk.Context`: the store,
-- the rest of the chain, the meter, the events, and what types/context.go keeps. The machine is a
-- function of all that a call of it may read, and answers with its result, the gas used, the meter
-- after its queries and its writes, which go to the contract's own store. Gas, Sequence, Code,
-- History, Contracts and Depth have the operations one by one. Response is the call of the machine
-- and the treatment of a contract's response, whose messages go to a parameter that stands for the
-- response handler; Calls has execute, sudo, reply and the queries, Instantiate and Migrate the two
-- long handlers. Keeping has one rule for each operation on what it leaves of the store, Isolation
-- and Registry the theorems on calls and on the data of contracts, and Laws what is asked of the
-- codec. Genesis models keeper/genesis.go, the import of all of this.
--
-- Wasm.Messages has the messages of types/tx.go with their checks, Wasm.MsgServer the handler of
-- each (keeper/msg_server.go), which checks a message, parses its addresses, selects the policy of
-- its sender and calls the keeper. MsgServer.Message has them in one type; Refusal, Ownership and
-- Uploads are on who may send what, Keeping has one rule for each message of users on the data of a
-- contract that it is not about, and Ownership.Final is on all that may happen after an admin was
-- cleared. Formats is what the checks ask of Go's library.
--
-- Wasm.Grants models types/authz.go: limits, filters and grants, Grants.Code the grants to store
-- code, and Grants.Accept whether an authorization lets a message pass and what is left of it. The
-- grants before and after the one that applies are two lists, in place of the slice that Go updates
-- where it stands. Match is on one message, Budget and Spending on runs of messages, where each
-- meets the authorization that the one before has left, as the SDK stores it. The coin operations
-- are a parameter, GrantFormats, with CoinLaws.
--
-- Wasm.Messenger models keeper/handler_plugin.go, which handles what contracts send
-- (Wasm.CosmosMsg): messages for the SDK, raw packets, and the burning of coins. It is what the
-- dispatcher's messenger stands for. Wasm.Encoders models keeper/handler_plugin_encoders.go, which
-- makes messages of the SDK of them, those of x/wasm as its message server has them. The routing of
-- the SDK, IBC and the bank are the parameter Routing. Encoders.Sender, and below Messenger Signed,
-- Once, Parts and Ownership, are their theorems.
--
-- No definition takes fuel: all loops run over lists.
--
-- Not modelled: messages and wrapping of errors, loggers, the gas that the SDK charges for each
-- access of a store, the events of other modules, what a message that fails leaves behind (the SDK
-- rolls it back, so it is no step), the URI fields of metadata beyond their empty default, JSON and
-- protobuf encodings, the export of the genesis of x/wasm, vesting accounts, the entry points and
-- the relay of IBC, the plugins for queries, precompiles, the command line and the wiring of the
-- application.
pub mod Base
pub mod Chain
pub mod TokenFactory
pub mod Wasm
pub mod Tests
