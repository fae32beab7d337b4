-- ===== src/Examples/Transfers.antt =====
-- Transfers of tftp/state.rs and tftp/connection.rs, over a file in memory.
use rack_director.Prelude.{
  ℕ, suc, ◌≡◌, ◌<◌, ◌+◌, refl, some, List, [], ◌∷◌, Bytes, codes, ok, arith, true,
}
use rack_director.Tftp.Unicode.{ascii_only}
use rack_director.Tftp.Options.{TftpOption, t_size, blk_size}
use rack_director.Tftp.Packet.{rrq, block_data, to_bytes}
use rack_director.Tftp.State.{
  continue, new, Reading, reading, negotiate_options, negotiated_block_size, handle, respond,
  arrived,
}
use rack_director.Tftp.State.Integrity.{start, respond-IsBlockOf, IsBlockOf, requested}
use rack_director.Tftp.State.Transfer.{download, acknowledged, at_state}
use rack_director.Tftp.State.Transfer.Stuck.{IsEmptyBlock}
use rack_director.Tftp.State.Transfer.Download.{download-content, download-endless}
use rack_director.Tftp.State.Timeouts.{replicate}
use rack_director.Tftp.State.Accepted.{accepted, negotiate_options-accepted}
use rack_director.Tftp.Connection.{accept, connection_closed}
use rack_director.Tftp.Connection.Laws.{quiet, accept-silence}
use rack_director.Examples.Memory.{
  kernel, file_server, file_server-ReadsFiles, file_server-IsReadable,
}

abbrev octet : Bytes
octet = codes "octet"

abbrev name : Bytes
name = codes "vmlinuz"

abbrev fours : List TftpOption
fours = t_size 0 ∷ blk_size 4 ∷ []

negotiate_fours : negotiate_options file_server name fours ≡ ok (t_size 6 ∷ blk_size 4 ∷ [])
unfolding negotiate_options
negotiate_fours = refl

fours_positive : 0 < negotiated_block_size file_server (t_size 6 ∷ blk_size 4 ∷ [])
unfolding negotiated_block_size
fours_positive = omega arith

download-content_example : download file_server 20 name octet fours ≡ some kernel
download-content_example =
    download-content file_server-ReadsFiles (file_server-IsReadable name) 20 octet fours
      (t_size 6 ∷ blk_size 4 ∷ []) negotiate_fours fours_positive (omega arith)

zero_size : negotiated_block_size file_server (blk_size 0 ∷ []) ≡ 0
unfolding negotiated_block_size
zero_size = refl

negotiate_zero : negotiate_options file_server name (blk_size 0 ∷ []) ≡ ok (blk_size 0 ∷ [])
unfolding negotiate_options
negotiate_zero = refl

download-endless_example : IsEmptyBlock (70000 + 1) (
    acknowledged file_server
      (suc 70000)
      (handle file_server new (rrq name octet (blk_size 0 ∷ []))))
download-endless_example =
    download-endless file_server-ReadsFiles (file_server-IsReadable name) 70000 octet
      (blk_size 0 ∷ []) (blk_size 0) [] negotiate_zero zero_size

abbrev first : Reading (Bytes × ℕ)
first = record {
  filename = name;
  mode = octet;
  reader = ([], 512);
  block = 1;
  bytes = kernel;
  block_size = 512;
  timeouts = 0;
}

first_block :
    respond file_server new (arrived (rrq name octet []))
    ≡ (at_state 4 (reading first), continue (block_data 1 kernel))
unfolding respond handle new
first_block = refl

respond-IsBlockOf_example :
    IsBlockOf file_server-ReadsFiles (requested (arrived (rrq name octet []) ∷ [])) 1 kernel
respond-IsBlockOf_example =
    respond-IsBlockOf file_server-ReadsFiles [] new (at_state 4 (reading first))
      (arrived (rrq name octet [])) 1 kernel start first_block

negotiate_options-accepted_example :
    negotiate_options file_server name fours ≡ ok (accepted 6 fours)
negotiate_options-accepted_example = negotiate_options-accepted file_server name 6 fours refl

first_answer :
    handle file_server new (rrq name octet [])
    ≡ (at_state 4 (reading first), continue (block_data 1 kernel))
unfolding handle new
first_answer = refl

abbrev data_packet : Bytes
data_packet = to_bytes (block_data 1 kernel)

accept-silence_example :
    accept file_server ascii_only (rrq name octet []) true (replicate 4 quiet)
    ≡ (data_packet ∷ data_packet ∷ data_packet ∷ data_packet ∷ [], connection_closed)
accept-silence_example =
    accept-silence file_server ascii_only (rrq name octet []) (block_data 1 kernel)
      (at_state 4 (reading first)) first_answer
