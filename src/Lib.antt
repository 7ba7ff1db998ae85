-- ===== src/Lib.antt =====
-- Components of dapr, modelled as definitions that run, with the theorems that make them correct.
--
-- The repository holds the building blocks that a dapr sidecar plugs in: state stores, message
-- brokers, name resolution and more, most of them thin clients of an outside service. Modelled here
-- are parts that carry logic of their own:
--
-- * State (state/*.go, state/utils/ttl.go): request options, requests, errors, `ttlInSeconds`.
-- * State.InMemory (state/in-memory/in_memory.go, keys.go): a state store in a map, with etags, time
--   to live, transactions (Multi), deletion by prefix, listing by LIKE patterns (Like, KeysLike) and
--   shutdown (Shutdown). Accepted says which requests are accepted, View is what a reader can see, Invariant
--   what stays true of the map.
-- * State.Bulk (state/bulk.go): the bulk operations on any store, as steps of their goroutines.
-- * State.Stringify (state/utils/utils.go): the text in which a store keeps a value, and which strings a JSON
--   reader gives back (Losses).
-- * State.Query (state/query/filter.go, query.go): the filters of a query, ParseFilter on JSON values
--   (Form is the JSON that a filter has, Reading what ParseFilter accepts), and the Builder with any
--   visitor.
-- * Postgresql (common/component/postgresql/v1/postgresql_query.go): the visitor that turns a filter into
--   SQL with numbered placeholders, and the query built and run with it. Condition is the tree of such
--   a text and what it says of a row; the statement goes to a database that is an argument.
-- * SecretStores (secretstores/local/file, secretstores/local/env): the secrets of a JSON file, whose
--   nested values are named by their paths (Leaves lists them, Reading and MultiValued say what GetSecret
--   answers), and those of the environment, where some variables are never shown (Access).
-- * Servicebus.Subscription (common/component/azure/servicebus/subscription.go): the limits of a
--   subscription, the goroutines of any number of calls of ReceiveBlocking and of handleMessages as steps
--   (System), and the goroutines that complete or abandon the messages of a batch (Settling).
-- * EventBus (common/eventbus/event_bus.go): subscriptions to topics and wildcards, what Publish does
--   with a message, and its goroutines and locks as steps (Async).
-- * PubSub.InMemory (pubsub/in-memory/in-memory.go): the broker over that bus, whose subscriptions end
--   with their contexts or with Close.
-- * PubSub.Envelope (pubsub/envelope.go): the cloud events that carry messages, as maps of JSON values, and
--   their expiration.
-- * Metadata (metadata/utils.go): the time to live, the priority and the other properties of a request
--   (Bounds has the ranges of these numbers).
-- * NameResolution.Mdns (nameresolution/mdns/mdns.go): the cache of addresses, with their expiry and
--   their turns, and what one mDNS answer adds to it.
--
-- Prelude, Dict and Strconv are shared: Go's strings, maps and number formats.
--
-- State is passed explicitly: an operation of a store is a function on the store for what it does
-- while it holds the lock, and an operation that gives the lock back in between takes what the others
-- do as an argument. The clock, made uuids and the results of json.Marshal are arguments too. Where
-- goroutines interleave, a step relation says what each can do next. Numbers
-- of fixed width wrap around where the code computes with them. Texts are lists of code points.
--
-- FormatUint has fuel 20, enough for the digits of every 64-bit number; a reader of pages has as much
-- fuel as it is given, and the theorem about it says how much is enough.
--
-- In Async a callback is a goroutine that runs for a while and does not call the bus itself: one that
-- is not asynchronous and does would wait for the lock that its own publisher holds.
--
-- Not modelled: the clients of outside services, and what they run on (locks inside the runtime, the
-- RFC 3339 text of a time, logging).
pub mod Prelude
pub mod Dict
pub mod Strconv
pub mod State
pub mod EventBus
pub mod PubSub
pub mod NameResolution
pub mod Postgresql
pub mod SecretStores
pub mod Servicebus
pub mod Metadata
