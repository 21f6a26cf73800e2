-- ===== src/Lib.antt =====
-- Rookery is a mail server with OpenPGP: it receives mail, keeps it as blobs on disk with rows in
-- PostgreSQL, and sends mail through a queue, by the recipient's own servers or by a smarthost. This
-- library models the parts below in functions and proves what makes them correct. Paths are from
-- the root of the repository.
--
-- Queue (internal/queue/queue.go): the worker. A row of outbound_queue is claimed, its message is loaded
-- and handed to a transport, and the answer closes the row or plans the next try. `process_one` is
-- processOne; its early returns are the helpers by clauses begin_claim, with_claim, commit_claim,
-- attempt, run_job, after_transport and settle. `drain_queue` is the loop of drainQueue, over the list of
-- the rounds that the environment gives: the clock, the errors of the database and the disk, and what the
-- transports answer; the list is the fuel, and seven rounds for each open row and one more are enough,
-- since a row has at most seven attempts. Queue/State has the data, Queue/Transport the choice of the transport,
-- Queue/Marks the updates and the bounce, Queue/Errors the reading of error texts.
--
-- Smtp/Outbound and Smtp/Smarthost (internal/smtp/outbound.go): a delivery is the list of the commands
-- that are sent, with the error at the end, over a `Peer`, which says how the remote server answers each
-- command. Smtp/Client has sendMessage. Smtp/Sts (internal/smtp/mtasts.go): policies, their text, their
-- match and, in Smtp/Sts/Resolve, the use of a cache. The cache is an interface that any implementation
-- fills; durations are 64-bit patterns of nanoseconds, with the wrap-around of the multiplication.
--
-- Smtp/Submission (internal/smtp/submission.go): the session of a relay client as a step function over the
-- tables. The queue worker takes the rows that it puts into outbound_queue; both use the blobs of Store
-- (internal/store/store.go), which are files named by the digest of their content.
--
-- Smtp/Inbound (internal/smtp/inbound.go): the session of the MX listener. `resolve_recipient` is
-- resolveRecipient over the tables of domains, addresses and users; Smtp/Inbound/Data has the end of DATA,
-- the storing of a copy for each recipient with its own database errors, the harvest of keys, and the
-- local delivery that the queue worker calls. Smtp/Inbound/Tables and Smtp/Inbound/Copies follow the loop
-- over the recipients.
--
-- Keydir (internal/keydir/keydir.go): which keys are accepted, and the names under which they are
-- published. Discovery (internal/discovery/discovery.go): where the key of a recipient comes from, the
-- cache of known keys, and the chain of attested rotations; the bound is maxRotationHops, as in the code.
--
-- Auth (internal/auth): sessions by the digest of their token, and the two middlewares that a request
-- passes before a handler.
--
-- Smtp/Mime (internal/smtp/inbound.go): the walk over the MIME parts, as functions on a tree of parts. What
-- Smtp/Inbound/Data takes as the readers of a message are ParseMeta and extractAttachedPublicKey of here.
--
-- Domains (internal/domains): the custom domains. A table is a list of rows, and each call of the
-- outside has its own error in `Faults`. Domains/Dns checks the records, Domains/Verify is
-- CheckVerification, Domains/Reserved the addresses of a verified domain, Domains/Settings the catch-all
-- and the MTA-STS mode, and Domains/Jobs the periodic jobs. Domains/Reserved/Delivery joins these tables to
-- those that Smtp/Inbound reads.
--
-- Archive (internal/archive/archive.go): an archive is the list of its entries, without the encryption.
-- Archive/Export is ExportUser; Archive/Read is the loop of ImportUser over the entries, Archive/Insert its
-- inserts by table, and Archive/Import the whole. Blobs go through Store.
--
-- Lifecycle (internal/lifecycle/lifecycle.go): DeleteUser; a transaction is a state that is kept only by
-- the commit. Dkim (internal/dkim/dkim.go): the keys, sealed under the master key, Sign and
-- the change of the master key. Config (internal/config/config.go): the defaults and the checks of Load.
--
-- Base has what the modules share: numbers and their tests, lists, byte strings with the functions of the
-- strings package that the code uses, dictionaries with an equality instance, and results. Strings are
-- lists of bytes; the case functions and the trimming are those of ASCII. Error values are their texts,
-- wrapped as fmt.Errorf does. Times are seconds. Decimal numbers are printed with twenty digits at most,
-- which is enough for 64 bits.
--
-- Parameters of the models, since their code is not in the repository: SHA-256, SHA-1, bcrypt, the
-- OpenPGP reader and its signatures, AES-GCM, the DKIM library, JSON, tar, TOML, the MIME reader, rspamd, DNS, HTTPS, the remote servers, and Redis. PostgreSQL is
-- modelled as tables with the statements of the code, one connection at a time: two workers at once are not modelled.
-- Not modelled: the web handlers, the policy cache in Redis, the start-up and the periodic clean-up of
-- cmd/rookery, the listeners' sockets and the log lines.
pub mod Base
pub mod Smtp
pub mod Store
pub mod Queue
pub mod Keydir
pub mod Discovery
pub mod Domains
pub mod Auth
pub mod Archive
pub mod Lifecycle
pub mod Dkim
pub mod Config
