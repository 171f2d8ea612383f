-- ===== src/Lib.antt =====
-- A verification library for nameko, a framework for microservices in Python.
--
-- A service is a class with methods. Its container (nameko/containers.py) owns the extensions of
-- the service: entrypoints, which listen to the outside and fire methods, and dependency
-- providers, which inject what the methods use. An entrypoint fires by `spawn_worker`; the worker
-- sets the dependencies up, runs the method, hands the outcome to the entrypoint's handler and to
-- the dependencies, and tears them down. Calls between services carry their context data in
-- message headers, among it the stack of the ids of the calls that led to them.
--
-- A remote call publishes a request to the queue of a service, whose consumer spawns a worker; its
-- reply goes to the queue of the caller, whose listener wakes the call that waits for it. All
-- queues of a container are consumed by one queue consumer, with which entrypoints register.
-- Websockets are served by a hub, to which services subscribe sockets and through which they
-- broadcast.
--
-- The files, by the part of the program that they are about:
--   Prelude     what the other files share: numbers, lists, Python's dict and set, texts
--   Action      statements that act on the outside and may raise
--   Amqp        nameko/amqp/publish.py: what a publisher makes of the options it was given. Precedence
--               is which of them wins, History that calls do not show in one another
--   Cli         nameko/cli: EnvVar is the filling in of environment variables of main.py, Services and
--               Running are `import_service` and `run` of run.py
--   Concurrency nameko/utils/concurrency: `fail_fast_imap` as a step relation on its threads and queue
--   Containers  nameko/containers.py. Assembly is `__init__`, which binds the extensions; Context is
--               `WorkerContext`, Worker is `_run_worker`, and Lifecycle is `start`, `stop`, `kill`, the
--               spawning of threads and their exits, as a step relation on the container's attributes
--               and the calls that are on their way
--   Events      nameko/events.py: the queue of an event handler; Dispatch is `EventDispatcher`
--   Exceptions  nameko/exceptions.py: values made safe for JSON; Registry writes exceptions down and
--               reads them back
--   Extensions  nameko/extensions.py: `bind` with the sharing of instances, and `iter_extensions`
--   Messaging   nameko/messaging.py. Delivery is the settling of messages by acknowledgement, requeue
--               and reply; Headers is `HeaderEncoder` and `HeaderDecoder`; Publishing is `Publisher`;
--               Consumers is `Consumer`, and Consuming is `QueueConsumer` over `ProviderCollector` of
--               nameko/extensions.py
--   Rpc         nameko/rpc.py. Server is the way of a request through `RpcConsumer`, `Rpc` and
--               `Responder`; Registration is the coming and going of an `RpcConsumer`'s methods; Client
--               is `ReplyListener`, `RpcReply` and `MethodProxy`; RoundTrip is both sides
--   Runners     nameko/runners.py: `ServiceRunner` and `run_services`
--   Serialization
--               nameko/serialization.py: the serializers of the configuration
--   Standalone  nameko/standalone/rpc.py: `PollingQueueConsumer` and `ConsumeEvent`, a client that polls
--               for its reply
--   Testing     nameko/testing: Waiting is `entrypoint_waiter`, over what happens in a container while it
--               waits, and Restricting is `restrict_entrypoints`
--   Timer       nameko/timer.py: when the loop of `_run` spawns workers. Schedule is the plan they follow,
--               Stopping how it ends
--   Utils       nameko/utils: Retry is the retrying of calls, Redact the redaction of arguments
--   Web         nameko/web/websocket.py: Hub is `WebSocketHub`, with the relation of the interests of
--               sockets in channels as its specification; Requests is the handling of frames;
--               Http is `HttpRequestHandler` of nameko/web/handlers.py; Server is `parse_address` of
--               nameko/web/server.py, with Wsgi, its `WsgiApp`
--
-- The theorems stand in the modules below the definitions, named for what they show; each Examples
-- module applies them to concrete data. Loops are structural recursion, but two are on fuel. The loop
-- of `retry` may not end without a maximum of attempts; with a maximum it calls the function at most
-- once more than that many times, so one unit more than the maximum is enough. The loop over the
-- variables of a default has one unit, which is enough since a default holds no closing brace.
--
-- What is outside the repository is a parameter: kombu's registry of content types, its `dumps`
-- and its publisher, `inspect.getcallargs`, `repr`, uuid, werkzeug's matching of rules, importing, and
-- what a service's own code returns or raises. Green threads of eventlet are cut at the points where they wait: the container, the
-- queue consumer, the rpc consumer and concurrent calls are step relations in which any number of
-- calls interleave. Numbers are natural numbers without a bound, as Python's are.
--
-- Where an entrypoint waits for the outcome of a worker (Rpc/Server, Web, Messaging/Consumers), the
-- worker is taken to reach `handle_result`: a worker that is killed, or fails while its dependencies are
-- set up, hands no outcome over, and the wait for it is not modelled. Cancelling a consumer, which may
-- raise on a connection that is lost, is taken not to (Messaging/Consuming).
--
-- Not modelled are logging, the other commands of the command line, the other testing helpers, and the
-- connections of WSGI and AMQP, which are input and output.
pub mod Action
pub mod Amqp
pub mod Cli
pub mod Concurrency
pub mod Containers
pub mod Events
pub mod Exceptions
pub mod Extensions
pub mod Messaging
pub mod Prelude
pub mod Rpc
pub mod Runners
pub mod Serialization
pub mod Standalone
pub mod Testing
pub mod Timer
pub mod Utils
pub mod Web
