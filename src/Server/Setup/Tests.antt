-- ===== src/Server/Setup/Tests.antt =====
-- A start of the server on a machine where all goes well.
use wzy_server.Prelude.{
  ℕ, ◌+◌, ◌≡◌, refl, true, some, List, [], ◌∷◌, replicate, codes, arith, Returns,
}
use wzy_server.Samples.{blank_conn, blank_log, blank_pool, noon}
use wzy_server.Timer.{null}
use wzy_server.Server.Setup.{Machine, init_path, setup}
use wzy_server.Server.Setup.Ready.{
  Succeeds, IsReady, setup-IsReady, init_path_fits, into_100, root_of,
}

abbrev machine : Machine
machine = record {
  argc = 3;
  getcwd = some (codes "/srv");
  fopen = λ name. true;
  time = noon;
  static_log = blank_log;
  sigaction = λ sig. true;
  client = record { mysql_init = λ i. some (i + 20); mysql_real_connect = λ i con. some con };
  static_pool = blank_pool;
  create = λ i. true;
  detach = λ i. true;
  users = λ fd. blank_conn;
  users_timer = λ fd. record { address = 0; sockfd = 0; timer = null };
  result = some ((some (codes "ann"), some (codes "pw")) ∷ []);
  socket = some 3;
  bind = true;
  listen = true;
  epoll_create = some 4;
  socketpair = some (5, 6);
}

machine-Succeeds :
    Succeeds machine (codes "/srv") (λ i. i + 20) ((codes "ann", codes "pw") ∷ []) 3 4 (5, 6)
machine-Succeeds = record {
  getcwd_is = refl;
  short = omega arith;
  args = omega arith;
  handles = λ sig. refl;
  up = record { inits = λ i. refl; connects = λ i. refl };
  free = refl;
  no_conns = refl;
  none_free = refl;
  none_used = refl;
  threads = λ j lt. (refl, refl);
  table = refl;
  socket_is = refl;
  binds = refl;
  listens = refl;
  epoll_is = refl;
  pipe_is = refl;
}

setup-IsReady_example :
    Returns (IsReady (codes "/srv") ((codes "ann", codes "pw") ∷ [])) (setup machine)
setup-IsReady_example = setup-IsReady machine-Succeeds

-- A directory of 95 bytes.
abbrev deep : List ℕ
deep = replicate 95 47

init_path_fits_example : init_path (into_100 deep) ≡ root_of deep
init_path_fits_example = init_path_fits deep
