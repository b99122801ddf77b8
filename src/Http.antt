-- ===== src/Http.antt =====
-- http/http_conn.h and http_conn.cpp: one client connection, its buffers and its state.
pub mod Line
pub mod Request
pub mod Resource
pub mod Response
pub mod Send
pub mod Process
pub mod Watched
pub mod Table
mod Tests
use wzy_server.Prelude.{
  ℕ, zero, suc, ◌+◌, ◌-◌, Bool, true, false, ◌&&◌, not, ◌==◌, if◌then◌else◌, Option, none, some,
  List, [], ◌∷◌, ◌++◌, length, replicate, ltb, leb, Run, ok, fault, blocked, ◌>>=◌, splice, region,
}
use wzy_server.Prelude.Int.{ℤ, pos, negsuc, ◌+ℤ◌, ◌-ℤ◌}

pub data Method : Type 0 where
  get post head put delete trace options connect patch : Method

pub data CheckState : Type 0 where
  check_state_requestline check_state_header check_state_connect : CheckState

pub data HttpCode : Type 0 where
  no_request get_request bad_request no_resource forbidden_request file_request internal_error
        closed_connection :
      HttpCode

pub data LineStatus : Type 0 where
  line_ok line_bad line_open : LineStatus

abbrev pub read_buffer_size : ℕ
read_buffer_size = 2048

abbrev pub write_buffer_size : ℕ
write_buffer_size = 1024

abbrev pub filename_len : ℕ
filename_len = 200

-- The events of a descriptor that epoll is asked for.
pub data Interest : Type 0 where
  epollin epollout : Interest

-- The system calls that a connection makes, newest first.
pub data SysCall : Type 0 where
  adds removes closes : ℤ → SysCall
  rearms : ℤ → Interest → SysCall
  sends : List ℕ → SysCall
  unmaps : ℕ → SysCall

-- `iov_base`: an offset in `m_write_buf` or in the mapped file.
pub data Base : Type 0 where
  in_write_buf in_file : ℤ → Base

pub record IoVec : Type 0 where
  pub iov_base : Base
  pub iov_len : ℕ

-- `m_url`, `m_version`, `m_host` and `m_string` are pointers into `m_read_buf`: its indices, or
-- `none` for a null pointer. `file` is what is mapped at `m_file_address` (0 for null).
-- `user_count` is the static `m_user_count`.
pub record HttpConn : Type 0 where
  pub sockfd : ℤ
  pub address : ℕ
  pub read_buf : List ℕ
  pub read_idx : ℕ
  pub check_idx : ℕ
  pub start_line : ℕ
  pub write_buf : List ℕ
  pub write_idx : ℕ
  pub check_state : CheckState
  pub method : Method
  pub real_file : List ℕ
  pub url : Option ℕ
  pub version : Option ℕ
  pub host : Option ℕ
  pub content_length : ℤ
  pub linger : Bool
  pub file_address : ℕ
  pub file : List ℕ
  pub file_size : ℕ
  pub iv_0 : IoVec
  pub iv_1 : IoVec
  pub iv_count : ℕ
  pub cgi : Bool
  pub string : Option ℕ
  pub bytes_to_send : ℤ
  pub bytes_have_send : ℤ
  pub user_count : ℤ
  pub calls : List SysCall

abbrev pub syscall : SysCall → HttpConn → HttpConn
syscall s c = record c { calls = s ∷ c.calls }

-- The three calls on the kernel's event table. Their results are ignored, as in the source.
unfoldable pub addfd : ℤ → HttpConn → HttpConn
addfd fd c = syscall (adds fd) c

unfoldable pub removefd : ℤ → HttpConn → HttpConn
removefd fd c = syscall (closes fd) (syscall (removes fd) c)

unfoldable pub modfd : Interest → HttpConn → HttpConn
modfd ev c = syscall (rearms c.sockfd ev) c

unfoldable pub is_minus_one : ℤ → Bool
is_minus_one (pos n) = false
is_minus_one (negsuc n) = n == 0

unfoldable pub close_conn : Bool → HttpConn → HttpConn
unfolding removefd
close_conn real_close c =
    if real_close && not (is_minus_one c.sockfd)
    then (let c = removefd c.sockfd c in
        record c { sockfd = negsuc 0; user_count = c.user_count -ℤ pos 1 })
    else c

-- The private `init`.
unfoldable pub reset : HttpConn → HttpConn
reset c = record c {
  check_state = check_state_requestline;
  linger = false;
  method = get;
  url = none;
  version = none;
  content_length = pos 0;
  host = none;
  start_line = 0;
  check_idx = 0;
  read_idx = 0;
  write_idx = 0;
  read_buf = replicate read_buffer_size 0;
  write_buf = replicate write_buffer_size 0;
  real_file = replicate filename_len 0;
}

-- `init(sockfd, addr)`
unfoldable pub init : ℤ → ℕ → HttpConn → HttpConn
unfolding reset
init sockfd addr c =
    let c = record c { sockfd = sockfd; address = addr } in
    let c = addfd sockfd c in reset (record c { user_count = c.user_count +ℤ pos 1 })

-- What one `recv` gives: bytes, the end of the stream, no data now, or an error.
pub data Recv : Type 0 where
  gets : List ℕ → Recv
  at_end would_block fails : Recv

-- The loop of `read`, over what its `recv` calls give. `recv` gives at most the room that it is
-- offered, and none when that is 0.
unfoldable pub read_loop : List Recv → HttpConn → Run (Bool × HttpConn)
read_loop [] c = blocked
read_loop (gets s ∷ more) c = do
  buf ← splice c.read_buf c.read_idx s
  read_loop more (record c { read_buf = buf; read_idx = c.read_idx + length s })
read_loop (at_end ∷ more) c = ok (false, c)
read_loop (would_block ∷ more) c = ok (true, c)
read_loop (fails ∷ more) c = ok (false, c)

unfoldable pub read : List Recv → HttpConn → Run (Bool × HttpConn)
unfolding read_loop
read received c = if leb read_buffer_size c.read_idx then ok (false, c) else read_loop received c

unfoldable pub unmap : HttpConn → HttpConn
unmap c =
    if c.file_address == 0
    then c
    else record (syscall (unmaps c.file_address) c) { file_address = 0 }
