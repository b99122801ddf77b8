-- ===== src/Samples.antt =====
-- Objects that the tests of several parts begin with.
use wzy_server.Prelude.{ℕ, false, none, some, List, [], ◌∷◌, codes, true}
use wzy_server.Prelude.Int.{pos, negsuc}
use wzy_server.Queue.{BlockQueue}
use wzy_server.ThreadPool.{ThreadPool}
use wzy_server.SqlPool.{Pool}
use wzy_server.Http.{HttpConn, get, check_state_requestline, in_write_buf, in_file}
use wzy_server.Http.Resource.{Site}
use wzy_server.Log.{Log, Time}

abbrev pub blank_conn : HttpConn
blank_conn = record {
  sockfd = negsuc 0;
  address = 0;
  read_buf = [];
  read_idx = 0;
  check_idx = 0;
  start_line = 0;
  write_buf = [];
  write_idx = 0;
  check_state = check_state_requestline;
  method = get;
  real_file = [];
  url = none;
  version = none;
  host = none;
  content_length = pos 0;
  linger = false;
  file_address = 0;
  file = [];
  file_size = 0;
  iv_0 = record { iov_base = in_write_buf (pos 0); iov_len = 0 };
  iv_1 = record { iov_base = in_file (pos 0); iov_len = 0 };
  iv_count = 0;
  cgi = false;
  string = none;
  bytes_to_send = pos 0;
  bytes_have_send = pos 0;
  user_count = pos 0;
  calls = [];
}

-- A site where every path is the one file at the address 77.
abbrev pub one_file : Site
one_file = record {
  doc_root = codes "/r";
  stat = λ path. some (record { size = 3; others_read = true; directory = false });
  map_file = λ path. (77, codes "abc");
  mysql = some 11;
  query_fails = λ sql. false;
}

abbrev pub blank_pool : Pool
blank_pool = record {
  max_conn = 0;
  cur_conn = 0;
  free_conn = 0;
  held = false;
  conn_list = [];
  reserve = 0;
  url = "";
  port = [];
  user = "";
  pass_word = "";
  data_base_name = "";
}

abbrev pub two_conns : Pool
two_conns = record blank_pool { max_conn = 2; free_conn = 2; conn_list = 11 ∷ 12 ∷ []; reserve = 2 }

abbrev pub idle_threads : ThreadPool
idle_threads = record {
  thread_number = 2;
  max_requests = 2;
  work_queue = [];
  held = false;
  queue_stat = 0;
  stop = false;
  started = 2;
}

abbrev pub noon : Time
noon = record {
  tm_year = 122;
  tm_mon = 4;
  tm_mday = 9;
  tm_hour = 12;
  tm_min = 0;
  tm_sec = 7;
  tv_usec = 33;
}

-- Room for two lines, none of which is taken.
abbrev pub two_places : BlockQueue (List ℕ)
two_places = record {
  array = [] ∷ [] ∷ [];
  size = pos 0;
  max_size = 2;
  front = negsuc 0;
  back = negsuc 0;
  held = false;
  broadcasts = 0;
}

abbrev pub blank_log : Log
blank_log = record {
  dir_name = [];
  log_name = [];
  split_lines = 0;
  log_buf_size = 0;
  count = 0;
  today = 0;
  file = none;
  buf = [];
  log_queue = two_places;
  is_async = false;
  output = [];
  flushed = 0;
  held = false;
}
