-- ===== src/Lib.antt =====
-- A verification library of attos, a small x64 operating system: a kernel with its drivers under kernel/, and
-- the library attos/ that the kernel, its user programs and the experiments under exp/ share. Functions of the
-- program are functions here, its state is passed on as a record, REQUIRE and fatal_error are the failing case
-- of an Option or a Result, and machine words are natural numbers with their wrap-around written out.
--
-- Heap models simple_heap of attos/mem.h and attos/mem.cpp, the allocator of physical pages. The free list lies
-- inside the free memory; here it is the list of the nodes in link order. Heap/Clients is the history of a heap
-- and of the callers that hold its blocks.
-- Heap/Default is default_heap above it, with the two words of the header before each block.
--
-- Net models the network stack of attos/net/. Net/Wire has packets as lists of bytes, and the checksum.
-- Net/Device is the state of ipv4_ethernet_device, Net/Arp, Net/Ipv4, Net/Sockets and Net/Frames its
-- operations: arp_in, send_arp, ipv4_out, sendto, icmp_in, udp_open, udp_close, udp_in, ipv4_in, eth_in. A handler
-- gives the new state and the events, the frames sent and the datagrams handed to sockets; out_of_bounds is a read
-- past the packet, of its data or of a header that it is cast to. Above it are two clients. Net/Dhcp is dhcp_handler with do_dhcp; the option loop of
-- parse_reply is on fuel, and Net/Dhcp/Options relates the fuel to the length of the packet. Net/Tftp is
-- tftp_reader and tftp_writer with the loop of tftp_op; rounds of that loop, and of do_dhcp, are a list of the
-- datagrams that arrive in each.
--
-- Ps2 models kernel/ps2.cpp: Ps2/Buffer is fixed_size_queue at its one instance, Ps2/Keys the interrupt handler,
-- read_key and key_available. The loop of read_key is on fuel, and one more than the scan codes in the buffer
-- and to come is enough. OutStream models the formatted output of attos/out_stream.cpp, as the list of the
-- characters written; the fuel of its number loop is the room in the buffer of 64 characters, and the fuel of
-- hexdump is more than the rows that the memory can touch. Containers models kvector of attos/containers.h with its
-- calls of kalloc and kfree, counted in bytes. TextScreen models kernel/text_screen.cpp with the cells of the screen and the cursor
-- registers. Pci models kernel/pci.cpp over a configuration space that
-- is a parameter; the search for devices is on fuel, and 512 is enough for 256 buses, with the functions of a
-- device one step deeper, when the bus behind a bridge has the higher number.
--
-- Paging models the memory manager of kernel/mm.cpp with the addresses of attos/mem.h. Physical memory is a function
-- from addresses to words, in which Paging/Tables walks and writes the four levels of tables; the pages for new
-- tables come from a source, a parameter that stands for physical_pages_. Paging/Manager is do_map_memory and
-- do_unmap_memory with every check; the tree of mappings is the list that its iterators run through, and the loop
-- over a range counts its pages. Paging/Shape says where each table stands, Paging/Walk follows the entries that
-- virt_to_phys reads, Paging/Enter, Paging/Round and Paging/Unmap are about one page, Paging/Loop about a range.
--
-- Ethernet models the driver of kernel/i825x.cpp. Ethernet/Receive and Ethernet/Transmit are the two descriptor
-- rings with do_process_packets and do_send_packet, where the status bytes that the device writes are given as
-- functions of the look of the waiting loop; Ethernet/Reset writes the registers. Ethernet/Reception runs the
-- driver with the device that fills the receive ring, as a relation whose steps are those of both.
--
-- Interrupts models kernel/isr.cpp. Interrupts/Gate has the gates and the bytes that code_builder writes,
-- Interrupts/Handlers the masks of the interrupt controllers and the table of handlers, with what is written to
-- ports as events. Interrupts/Stub runs the bytes of an interrupt on the two instructions that they consist of.
--
-- Ata models the driver of kernel/ata.cpp over ports that are a parameter; its waiting loop has the 1000 rounds of
-- the source as fuel.
--
-- Common has what all parts share: Boolean tests and checks, lists over native numbers, machine words.
--
-- Not modelled: processor set-up (kernel/cpu_manager.cpp), the kernel's main program, PE images and unwinding
-- (attos/pe.h, attos/pe.cpp), the red-black tree (attos/tree.h), the experiments under exp/, assembly and the
-- boot loader. Debug output has no effect on the state and is left out throughout.
pub mod Common
pub mod Heap
pub mod Net
pub mod Ps2
pub mod OutStream
pub mod Containers
pub mod TextScreen
pub mod Pci
pub mod Paging
pub mod Ethernet
pub mod Interrupts
pub mod Ata
