-- ===== src/Lib.antt =====
-- A model of hycast, the hybrid multicast of data-products, and theorems about it.
--
-- A publisher sends data-products to subscribers by multicast; what gets lost, the subscribers
-- ask of each other over a network of peers. A product has an index, a name and a size, and is
-- cut into segments. A chunk is the information on a product or one of its segments. The
-- peer-to-peer manager asks its bookkeeper whether an offered chunk should be requested of the
-- peer that offers it, and hands the requests of a peer that stops to others. What is received
-- goes to the repository, which keeps a file for each product, a bounded number of them open.
--
-- Protocol models main/protocol: Protocol/ProdIndex the product-index and its increment, and
-- Protocol/ChunkId the identifiers of segments and chunks (hycast.h, hycast.cpp).
--
-- Inet/TcpSock is the socket of main/inet/Socket.cpp: what it has written, as a list of bytes,
-- and what it can still read. Writes are taken to succeed and the connection to bring the
-- bytes in order until its end. Inet/TcpSock/Decodes says what it means that a reading
-- function gives back what a writing one has sent. Protocol/PeerProto is the protocol between
-- peers of main/protocol/PeerProto.cpp: its messages, with what the receiving peer does to a
-- segment as an argument `takes`, and handlers that do not throw; its loops, on fuel, of which
-- more than the number of bytes is enough; and, in Protocol/PeerProto/Connect, its
-- constructors, with the pool of ports and the answers of the network as arguments. The
-- threads of the loops, which have a connection each, are not modelled.
--
-- Inet/UdpSock is the UDP socket of main/inet/Socket.cpp: what is gathered for the next
-- datagram, and the datagrams that come. The system's limit on the elements of a vector is an
-- argument, whether a datagram is sent is the answer of the system, and a write past the end
-- of one of the socket's arrays is an error, `out_of_range`. Protocol/McastProto is the
-- multicast of main/protocol/McastProto.cpp, with what the subscriber does to a segment as an
-- argument. Its receiving loop is on fuel, of which more than the number of datagrams is
-- enough.
--
-- P2p models main/p2p. P2p/PubBookkeeper and P2p/SubBookkeeper are the two classes `Impl` of
-- Bookkeeper.cpp: a record or map for the members, and a function for each method, under its
-- name in snake case. P2p/WorstPeer is the loop that their `getWorstPeer()` share.
-- P2p/Reassign is `reassignPending()` and `stopped()` of P2pMgr.cpp, with the calls of the
-- bookkeeper that the peers cause as a sequence, while the manager is not done; then
-- `stopped()` does nothing. `reassignPending()` iterates over a set that its own calls could
-- change only if the stopped peer were its own alternative; the model takes the set as it was.
-- What the `request()` of another peer does is an argument of the stop: it queues the chunk,
-- ignores it because its queue has been closed, or throws because the peer has been halted,
-- which leaves `stopped()` at once.
--
-- Repository models main/repository. Repository/LinkedProdMap is the map with a list through
-- its entries of Repository.cpp, with `ensureRoom()`. Repository/ProdFile is the arithmetic of
-- segments and Repository/RcvProdFile the receiving file of ProdFile.cpp. Each section of code
-- under the file's mutex is one function there, and Repository/RcvProdFile/Threads lets any
-- number of threads interleave them. Repository/SubRepo is the repository of a subscriber of
-- Repository.cpp, over the linked maps and the receiving files: the maps hold handles of files
-- in a store, a handle being the index under which the file was made. The answers of the file
-- system are an argument. Repository/SubRepo/Questions has what only asks and reads,
-- Repository/SubRepo/Stores is the store that it implements, and Repository/SubRepo/Savers
-- lets any number of threads interleave the sections of `save()`. A file that is closed is
-- opened again by its pathname, which the model takes to bring back what was written there if
-- the system lets it; from a new repository this is not reached, since `addProdFile()` enters
-- each file among the open ones without making room.
--
-- Repository/PubRepo is the repository of a publisher of Repository.cpp, with the files of a
-- publisher of ProdFile.cpp. The files below the root directory are an argument of each call,
-- a pathname is a list of bytes, and the event of the watcher is the argument of
-- `get_next_prod`. A file that is mapped is taken to have the bytes that it had then.
-- Repository/Objects has the files behind handles, Repository/Shelf says when the two linked
-- maps and these files fit together, and Repository/Own has sequences of indexes; both
-- repositories use them.
--
-- P2p/Admission is `maybeAdd()` of P2pMgr.cpp, as a subscriber has it: it keeps the
-- bookkeeper's state and takes the size of the set of peers as an argument. The map from
-- addresses to peers is left out.
--
-- P2p/Peer is the state of a subscriber's peer of Peer.cpp, with the `notify()` of
-- `Peer::Impl`, which is called although `SubPeer` has one, too. P2p/PeerSet is the set of
-- peers of PeerSet.cpp: a record, a function for each section under the mutex, and a step
-- relation for what the threads of the peers and the reaper do. P2p/PeerSet/Locks has the
-- mutexes of the set and of the manager, and where the threads are that lock them.
--
-- P2p/Paths is what the manager makes of the notices of its peers that they have a path to the
-- publisher or have it no more: the change of the peer's flag and the call of the manager are
-- two steps.
--
-- P2p/ChunkIdQueue is the queue of notices of main/p2p/ChunkIdQueue.cpp, Inet/PortPool the
-- pool of main/inet/PortPool.cpp, Misc/DelayQueue the queue of main/misc/DelayQueue.cpp,
-- Misc/FixedDelayQueue that of main/misc/FixedDelayQueue.cpp, whose `pop()` gives up the mutex
-- in its middle and is two functions and whose `push()` is taken to be one step, and
-- Misc/LinkedHashMap the map of main/misc/LinkedHashMap.h. A method that waits on a condition
-- is a function that says whether it waits; what it does once it is woken is another call of
-- the function.
--
-- Node/Subscriber is the receipt of chunks in `Subscriber::Impl` of main/node/Node.cpp, with
-- `hereIs()` of P2pMgr.cpp: the bookkeeper says whether the peer was asked, and the repository
-- whether the chunk is new. Node/Subscriber/Duplicates joins it to the receiving loop of
-- Protocol/PeerProto, and Node/Subscriber/Requests has `shouldRequest()`.
--
-- Conventions. An unordered map or set is a list, whose order is that of iteration; each
-- theorem holds for every such order. An exception is an `err`, or an answer that says so; a
-- call that ends in an `err` has changed nothing, except in Repository/SubRepo,
-- Node/Subscriber, Inet/UdpSock, P2p/PeerSet, P2p/Reassign and Repository/PubRepo, where the
-- state after it is kept. Objects behind pointers are numbers or options. Numbers are natural;
-- 16, 32 and 64 bits are written out as remainders where a sum can wrap around. `ensure_room`
-- recurses on fuel; more fuel than files is enough, which its theorem includes;
-- Repository/SubRepo gives it that much. The memory map of a received file is a function from
-- positions to bytes.
--
-- Not modelled: options and addresses of sockets, threads as such, logging, the file system
-- beyond its answers, the directory watcher, the publisher and the programs of main/node, and
-- the earlier designs in main/net, main/comms and main/prod.
pub mod Prelude
pub mod Protocol
pub mod P2p
pub mod Repository
pub mod Inet
pub mod Misc
pub mod Node
pub mod Tests
