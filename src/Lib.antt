-- ===== src/Lib.antt =====
-- A model of the solo mining pool and the theorems that hold of it.
--
-- The pool takes a block template from a Bitcoin node, makes a job of it (stratum/job.cpp), hands the job
-- to miners over two protocols, the first in lines of JSON (stratum/) and the second in binary frames
-- (sv2/), and judges the shares that they send back: a share is a header of the job with the miner's
-- extranonce, time, nonce and version, and counts when its hash is low enough; when it is low enough
-- for the network, the job builds the block around it.
--
-- The files and the code that they model:
--   Util/Endian, Varint, Hex       src/util/endian.hpp, varint.cpp, hex.cpp; `canonical` of Hex/Words is
--                                  `append_canonical_hex` of src/stratum/session.cpp
--   Util/Uint256, Merkle           src/util/uint256.cpp, merkle.cpp
--   Util/Difficulty                src/util/difficulty.cpp
--   Util/Base58, Bech32            src/util/base58.cpp, bech32.cpp
--   Bitcoin/Address                src/bitcoin/network.hpp, address.cpp
--   Bitcoin/Serialize, Coinbase    src/bitcoin/serialize.hpp, coinbase.cpp
--   Bitcoin/Transaction            no code: the format of transactions, written independently
--   Bitcoin/BlockTemplate          src/bitcoin/block_template.hpp
--   Sv2/Codec                      src/sv2/codec.hpp, codec.cpp
--   Sv2/Writer, Reader, Messages   src/sv2/messages.hpp, messages.cpp
--   Stratum/Job, Job/Work          src/stratum/job.hpp, job.cpp: construction, coinbases, work, blocks
--   Stratum/Job/Share              src/stratum/job.cpp: headers and the validation of shares
--   Stratum/Seen                   src/stratum/session.cpp: the shares seen, and the key of a share
--   Stratum/Vardiff                src/stratum/session.cpp: the choice of a difficulty
--   Stratum/Message, its children  src/stratum/message.hpp, message.cpp, src/util/json_number.hpp
--   Stratum/Json                   the interface of the JSON library
--   Stratum/Session                src/stratum/session.hpp, session.cpp: the state of a connection
--   Stratum/Session/Notify         src/stratum/session.cpp: jobs and difficulties sent, retargeting
--   Stratum/Session/Handlers       src/stratum/session.cpp: the requests other than submissions
--   Stratum/Session/Submit         src/stratum/session.cpp: `handle_submit` and `handle_line`
--   Stratum/Session/Status         src/mining/client.hpp, src/stratum/session.cpp: `stats`
--   Net/ProxyProtocol              src/net/proxy_protocol.hpp, proxy_protocol.cpp
--   Stats                          src/stats/hashrate.hpp, share_accounting.cpp
--   Util/Url                       src/util/url.cpp
--   Core/Logging                   src/core/logging.cpp: `sanitize`, `ascii_only`
--   Prelude                        numbers, lists, exceptions, bits and the interface of `double`
--   Tests                          the theorems at concrete inputs
--
-- A definition has the name of the C++ function or type. A method takes its object as an argument and
-- returns the new one; an exception, `std::expected` or `std::optional` is a value of `Throws` or
-- `Option`. Texts and byte vectors are lists of numbers. A machine word is a natural number with its
-- wrap-around written out; a sum of sizes of buffers, a 64-bit time and the counters of one session, which
-- count by one from 0, are taken not to overflow.
--
-- A session is a record of its fields. An operation takes it, with what the pool answers at that time,
-- and returns the new one with the lines that it sends and its calls of the pool, in order. A step is
-- what runs under the session's mutex at once, or outside of it without the session: `Step` of
-- Stratum/Session/Steps has one for every kind of operation, three for a submission, whose calls of the
-- pool come before it takes the mutex again, and in a `Run` they come in any order.
--
-- Loops recur on their data or on a count. `push_loop` has a round for every byte, and every round
-- reads one; `root_loop` and `branch_loop` have one for every leaf, and a round halves the level;
-- the wide integers have five words; the carry of a base conversion has 32
-- rounds, and a number of 64 bits at most 20 digits.
--
-- Parameters: the double SHA-256 of third_party/, of which some theorems suppose that it gives 32
-- bytes; the operations on `double`; the JSON library; and for a session the answers of the pool.
--
-- Not modelled: the JSON of templates; the sessions of the second protocol; the Noise transport; the pool
-- with its threads, sockets, clients of the node, configuration, logs, status files and metrics.
pub mod Prelude
pub mod Core
pub mod Util
pub mod Stats
pub mod Bitcoin
pub mod Sv2
pub mod Stratum
pub mod Net
pub mod Tests
