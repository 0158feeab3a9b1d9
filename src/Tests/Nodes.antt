-- ===== src/Tests/Nodes.antt =====
-- A node of main/node/Node.cpp whose repository has got a segment that a peer was asked for.
use hycast.Prelude.{
  ℕ, none, ◌+◌, ◌≡◌, refl, true, false, some, [], ◌∷◌, ◌++◌, arith, ℕ_discrete, ok, runtime_error,
}
use hycast.Prelude.Dict
use hycast.Inet.TcpSock.{Out}
use hycast.Inet.TcpSock.Decodes.{stream}
use hycast.Protocol.ChunkId.{seg, ChunkId-discrete}
use hycast.Protocol.PeerProto.{SegInfo, declined, recv_chunk, receive, failed, send_data}
use hycast.P2p.SubBookkeeper.{SubBookkeeper, received, note_received, contains}
use hycast.P2p.SubBookkeeper
use hycast.Repository.ProdFile.{geometry, is_offset, seg_len, seg_index}
use hycast.Repository.RcvProdFile.{RcvProdFile, exists, save_seg, claim, finish, is_complete}
use hycast.Repository.RcvProdFile
use hycast.Repository.ProdFile
use hycast.Repository.SubRepo.{SubRepo, Env, new, new_file}
use hycast.Repository.SubRepo.Files.{file_at}
use hycast.Repository.SubRepo.Stores.{Store, store_put, Holds}
use hycast.Repository.SubRepo.Saves.{add_prod_file-Wf}
use hycast.Repository.SubRepo.Runs.{new-Wf}
use hycast.Node.Subscriber.{Subscriber, here_is_mcast_seg}
use hycast.Node.Subscriber.Requests.{should_request_info, first_seg_hides_info}
use hycast.Node.Subscriber.Duplicates.{takes_of, duplicate_fails}

abbrev env : Env
env = record { opens = true; creates = true; renames = true; to_string = λ k. "index" }

abbrev segment : SegInfo
segment = record { id = record { prod_index = 1; seg_offset = 0 }; prod_size = 2; seg_size = 2 }

-- The multicast has brought the only segment.
abbrev old_file : RcvProdFile
old_file = record {
  file = geometry 2 2;
  prod_index = 1;
  pathname = "index";
  path_is_name = false;
  have_segs = true ∷ [];
  seg_count = 1;
  bytes = λ j. j + 7;
}

abbrev empty : SubRepo
empty = new 2 1

abbrev repo : SubRepo
repo = (add_prod_file-Wf 1 [] [] empty old_file (new-Wf 1 2) (λ e. omega arith) refl).0

abbrev store : Store
store = store_put 1 old_file (λ i. file_at i empty)

repo-Holds : Holds 1 2 store [] repo
unfolding new
repo-Holds =
    let (r, added, wf, files, queue, limit, size) =
      add_prod_file-Wf 1 [] [] empty old_file (new-Wf 1 2) (λ e. omega arith) refl in
    record {
      known = 1 ∷ [];
      recent = 1 ∷ [];
      wf = wf;
      files = files;
      same_queue = queue;
      same_limit = limit;
      same_size = size;
    }

abbrev request : SubBookkeeper.PeerInfo
request = record { req_chunks = seg segment.id ∷ []; chunk_count = 0 }

abbrev books : SubBookkeeper
books = record { peer_infos = (5, request) ∷ []; alt_peers = (seg segment.id, []) ∷ [] }

abbrev node : Subscriber
node = record {
  bookkeeper = books;
  repo = repo;
  num_udp_orig = 1;
  num_tcp_orig = 0;
  num_udp_dup = 0;
  num_tcp_dup = 0;
}

was_requested :
    received 5 (seg segment.id) books ≡ ok (true, note_received 5 (seg segment.id) request books)
unfolding received contains Dict.find ℕ_discrete ChunkId-discrete
was_requested = refl

is_stored : store 1 ≡ some old_file
unfolding ℕ_discrete
is_stored = refl

is_there : exists 0 old_file ≡ ok true
unfolding exists is_offset seg_index geometry
is_there = refl

has_size : seg_len 0 old_file.file ≡ 2
unfolding seg_len seg_index geometry
has_size = refl

duplicate_fails_example :
    let start : Out = record { sent = []; bytes_written = 8 } in
    let sent = (send_data segment (0 ∷ 9 ∷ []) start).sent in
    receive (recv_chunk (takes_of env 5 node)) 2 (stream (sent ++ []) 8)
    ≡ (declined segment ∷ [], failed runtime_error)
duplicate_fails_example =
    duplicate_fails env 5 1 2 segment node (note_received 5 (seg segment.id) request books) store []
      old_file 0 9 [] [] 2 8 was_requested repo-Holds (omega arith) refl is_stored is_there has_size
      (((omega arith, omega arith), omega arith), omega arith, omega arith) refl (λ e. omega arith)
      (λ e. omega arith) (omega arith)

-- The multicast brings the only segment of a new product.
abbrev new_node : Subscriber
new_node = record {
  bookkeeper = books;
  repo = empty;
  num_udp_orig = 0;
  num_tcp_orig = 0;
  num_udp_dup = 0;
  num_tcp_dup = 0;
}

empty-Holds : Holds 1 2 (λ k. none) [] empty
unfolding new Dict.find
empty-Holds = record {
  known = [];
  recent = [];
  wf = new-Wf 1 2;
  files = λ j. refl;
  same_queue = refl;
  same_limit = refl;
  same_size = refl;
}

abbrev made : RcvProdFile
made = record {
  file = geometry 2 2;
  prod_index = 3;
  pathname = "index";
  path_is_name = false;
  have_segs = false ∷ [];
  seg_count = 0;
  bytes = λ _. 0;
}

abbrev saved : RcvProdFile
saved = finish 0 2 (λ j. j + 7) (record made { have_segs = true ∷ [] })

is_made : new_file env 2 3 2 ≡ ok made
unfolding new_file RcvProdFile.new ProdFile.new geometry
is_made = refl

is_saved : save_seg 0 2 (λ j. j + 7) made ≡ ok (true, saved)
unfolding save_seg claim is_offset seg_len seg_index geometry
is_saved = refl

first_seg_hides_info_example :
    (m : Subscriber) × (here_is_mcast_seg env 3 2 0 2 (λ j. j + 7) new_node
      ≡ some (ok true, true, m))
    × (is_complete saved ≡ false)
    × ((peer : ℕ)
        → (l : Subscriber) × (should_request_info env peer 3 m ≡ some (ok false, l))
          × (l.bookkeeper ≡ new_node.bookkeeper))
first_seg_hides_info_example =
    first_seg_hides_info env 3 2 0 2 1 2 (λ j. j + 7) new_node (λ k. none) [] made saved empty-Holds
      (omega arith) refl (λ e. omega arith) refl is_made is_saved
